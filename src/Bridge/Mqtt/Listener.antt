-- ===== src/Bridge/Mqtt/Listener.antt =====
-- apis/miot-bridge-api/src/services/MqttListenerService.ts, as the events of its client: messages are
-- handled one after another. The parsing and validation of a payload, `String` of a value, the text of an error and
-- the publishing of a message (whether it succeeded) are parameters; J is the type of JSON values. Spans and logs are
-- left out.
use iot_miniservers.Prelude.{
  ℕ, Bool, true, false, Option, none, some, List, [], ◌∷◌, ◌++◌, Text, text, text_eq, Eq,
}
use iot_miniservers.Prelude.Int.{ℤ}
use iot_miniservers.Prelude.Result.{Result, ok, err}
use iot_miniservers.Bridge.Poller.{PropertyChangeEvent}
use iot_miniservers.Bridge.Commands.{
  Operation, get_property, set_property, run_action, other_operation, DeviceCommandRequest,
  CommandError, Services,
}
use iot_miniservers.Bridge.Commands.Execute.{execute}
use iot_miniservers.Bridge.Mqtt.{extract_device_id, response_topic, command_subscription_pattern}

pub record MqttCommandRequestModel (V : Type 0) : Type 0 where
  pub command : Text
  pub operation : Operation
  pub value : Option V

pub record Broker (V W J : Type 0) : Type 0 where
  pub parse : List ℕ → Option J
  pub validate : J → Result Text (MqttCommandRequestModel V)
  pub show_value : V → Text
  pub error_text : CommandError → Text
  pub publish_async : Text → Text → W → Bool × W

-- What handling a message comes to: `reply` is the text to publish, if there is one.
pub record Handled (V W : Type 0) : Type 0 where
  pub reply : Option Text
  pub world : W
  pub events : List (PropertyChangeEvent V)

-- The listener: the patterns subscribed to, the messages published and the events announced, in order.
pub record Listener (V W : Type 0) : Type 0 where
  pub world : W
  pub subscribed : List Text
  pub published : List (Text × Text)
  pub events : List (PropertyChangeEvent V)

pub data ClientEvent : Type 0 where
  connected : ClientEvent
  message : Text → List ℕ → ClientEvent

abbrev pub error_reply : Text → Text
error_reply m = text "error: " ++ m

module _ {V : Type 0} where
  abbrev pub command_request : ℤ → MqttCommandRequestModel V → DeviceCommandRequest V
  command_request device_id r = record {
    device_id = device_id;
    command = r.command;
    operation = r.operation;
    value = r.value;
  }

module _ {V W : Type 0} where
  abbrev pub unhandled : Option Text → W → Handled V W
  unhandled reply w = record { reply = reply; world = w; events = [] }

  unfoldable pub subscribe : Option Text → Listener V W → Listener V W
  subscribe topic_prefix s = record s {
    subscribed = s.subscribed ++ command_subscription_pattern topic_prefix ∷ [];
  }

module _ {V W J : Type 0} where
  module _ (broker : Broker V W J) where
    abbrev pub value_text : Operation → Option V → Text
    value_text run_action value = []
    value_text get_property none = []
    value_text get_property (some v) = broker.show_value v
    value_text set_property none = []
    value_text set_property (some v) = broker.show_value v
    value_text (other_operation name) none = []
    value_text (other_operation name) (some v) = broker.show_value v

    abbrev pub reply_of : Operation → Result CommandError (Option V) → Text
    reply_of operation (ok value) = value_text operation value
    reply_of operation (err e) = error_reply (broker.error_text e)

  module _ ⦃e : Eq V⦄ (broker : Broker V W J) (env : Services V W) where
    abbrev pub handle_request : ℤ → MqttCommandRequestModel V → W → Handled V W
    handle_request device_id r w =
        let x = execute env (command_request device_id r) w in
        record {
          reply = some (reply_of broker r.operation x.result);
          world = x.world;
          events = x.events;
        }

    abbrev pub handle_validated : ℤ → Result Text (MqttCommandRequestModel V) → W → Handled V W
    handle_validated device_id (err m) w =
        unhandled (some (error_reply (text "Validation failed. " ++ m))) w
    handle_validated device_id (ok r) w = handle_request device_id r w

    abbrev pub handle_parsed : ℤ → Option J → W → Handled V W
    handle_parsed device_id none w = unhandled (some (error_reply (text "Invalid JSON."))) w
    handle_parsed device_id (some parsed) w = handle_validated device_id (broker.validate parsed) w

    unfoldable pub handle_message : ℤ → List ℕ → W → Handled V W
    handle_message device_id [] w = unhandled none w
    handle_message device_id (b ∷ payload) w =
        handle_parsed device_id (broker.parse (b ∷ payload)) w

  module _ (broker : Broker V W J) (topic_prefix : Option Text) where
    -- `publishResponse`: a failure is only logged.
    abbrev pub publish_response : ℤ → Option Text → Listener V W → Listener V W
    publish_response device_id none s = s
    publish_response device_id (some reply) s =
        let topic = response_topic topic_prefix device_id in
        let (sent, w) = broker.publish_async topic reply s.world in
        record s { world = w; published = s.published ++ (topic, reply) ∷ [] }

  module _ ⦃e : Eq V⦄ (broker : Broker V W J) (env : Services V W)
      (topic_prefix : Option Text) where
    unfoldable pub on_message : ℤ → List ℕ → Listener V W → Listener V W
    unfolding handle_message
    on_message device_id payload s =
        let h = handle_message broker env device_id payload s.world in
        publish_response broker topic_prefix device_id h.reply
          (record s { world = h.world; events = s.events ++ h.events })

    abbrev pub on_topic : Option ℤ → List ℕ → Listener V W → Listener V W
    on_topic none payload s = s
    on_topic (some device_id) payload s = on_message device_id payload s

    unfoldable pub client_step : ClientEvent → Listener V W → Listener V W
    unfolding on_message subscribe
    client_step connected s = subscribe topic_prefix s
    client_step (message topic payload) s =
        on_topic (extract_device_id topic_prefix topic) payload s

    unfoldable pub client_run : List ClientEvent → Listener V W → Listener V W
    unfolding client_step
    client_run [] s = s
    client_run (x ∷ xs) s = client_run xs (client_step x s)

    -- `start`, and what its handlers make of the events of the client, if there is a client.
    unfoldable pub start_listener : Bool → List ClientEvent → Listener V W → Listener V W
    unfolding client_run subscribe
    start_listener false xs s = s
    start_listener true xs s = client_run xs (subscribe topic_prefix s)
