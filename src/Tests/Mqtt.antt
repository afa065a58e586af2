-- ===== src/Tests/Mqtt.antt =====
-- The topics and the listener of apis/miot-bridge-api: a message is read as a speed to set, once it is
-- that of one digit.
use iot_miniservers.Prelude.{
  ℕ, ◌-◌, ◌≡◌, refl, true, Option, none, some, List, [], ◌∷◌, Text, text, nat_eq, text_eq,
}
use iot_miniservers.Prelude.Dict
use iot_miniservers.Prelude.Int.{pos}
use iot_miniservers.Prelude.Decimal.{show_int, parse_int, decimal}
use iot_miniservers.Prelude.Result.{ok}
use iot_miniservers.Bridge.Commands.{
  MiotProperty, Device, Services, Client, set_property, read, write, from_spec, resolve_command,
  resolve_operation, resolve_set,
}
use iot_miniservers.Bridge.Commands.Execute.{
  execute, execute_found, execute_on, perform_resolved, perform, answered,
}
use iot_miniservers.Bridge.Mqtt.{command_topic, extract_device_id, response_topic}
use iot_miniservers.Bridge.Mqtt.Topics.{}
use iot_miniservers.Bridge.Mqtt.Listener.{
  Broker, Listener, message, client_step, on_message, handle_message,
}
use iot_miniservers.Bridge.Mqtt.Answers.{Answered, client_step-Answered}

abbrev home : Option Text
home = some (text "home//")

topic_of_305 : command_topic home (pos 305) ≡ text "home/miot-bridge/device/305/command"
unfolding command_topic show_int decimal
topic_of_305 = refl

-- The two ends of the pattern may not share characters.
short_topic : extract_device_id none (text "miot-bridge/device/command") ≡ none
unfolding extract_device_id parse_int
short_topic = refl

-- What stands behind the number is not looked at.
longer_topic : extract_device_id none (text "miot-bridge/device/12/extra/command") ≡ some (pos 12)
unfolding extract_device_id parse_int
longer_topic = refl

abbrev fan : Device
fan = record { id = text "fan"; device_id = 4; model = text "m" }

abbrev speed : MiotProperty ℕ
speed = record {
  siid = 2;
  piid = 3;
  access = read ∷ write ∷ [];
  values = record { value = 2; description = [] } ∷ [];
  source = from_spec;
}

abbrev client : Client ℕ ℕ
client = record {
  get = λ s p w. (ok (some w), w);
  set = λ s p v w. (ok tt, 2);
  act = λ s a v w. (ok tt, w);
  get_each = λ iids w. (ok [], w);
}

abbrev services : Services ℕ ℕ
services = record {
  by_id = λ id. ok (some fan);
  by_device_id = λ id. ok (some fan);
  spec_of = λ d.
      ok (record {
        name = [];
        type_urn = [];
        properties = (text "speed", speed) ∷ [];
        actions = [];
      });
  client = λ d. client;
  now = λ w. 0;
}

abbrev one_digit : List ℕ → Option ℕ
one_digit (c ∷ []) = some (c - 48)
one_digit _ = none

abbrev broker : Broker ℕ ℕ ℕ
broker = record {
  parse = one_digit;
  validate = λ v. ok (record { command = text "speed"; operation = set_property; value = some v });
  show_value = λ v. v ∷ [];
  error_text = λ e. text "refused";
  publish_async = λ topic m w. (true, w);
}

abbrev listening : Listener ℕ ℕ
listening = record { world = 1; subscribed = []; published = []; events = [] }

client_step-Answered_example :
    Answered broker services home
      (pos 4)
      (text "2")
      listening
      (client_step broker services home (message (command_topic home (pos 4)) (text "2")) listening)
client_step-Answered_example =
    client_step-Answered broker services home (pos 4) (text "2") listening

abbrev obey : Text → Listener ℕ ℕ
obey payload =
    client_step broker services home (message (text "home/miot-bridge/device/4/command") payload)
      listening

speed_set : (obey (text "2")).published ≡ (text "home/miot-bridge/device/4/response", []) ∷ []
unfolding client_step extract_device_id parse_int on_message handle_message response_topic show_int
    decimal execute execute_found execute_on perform_resolved perform answered resolve_command
    resolve_operation resolve_set Dict.get
speed_set = refl

speed_refused :
    (obey (text "7")).published
    ≡ (text "home/miot-bridge/device/4/response", text "error: refused") ∷ []
unfolding client_step extract_device_id parse_int on_message handle_message response_topic show_int
    decimal execute execute_found execute_on perform_resolved perform answered resolve_command
    resolve_operation resolve_set Dict.get
speed_refused = refl
