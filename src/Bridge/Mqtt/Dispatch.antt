-- ===== src/Bridge/Mqtt/Dispatch.antt =====
-- apis/miot-bridge-api/src/services/NotificationDispatchService.ts. What `receive` sends is listed; whether it
-- arrives is only logged. V is the type of values.
use iot_miniservers.Prelude.{
  ℕ, Bool, true, false, Option, none, some, List, [], ◌∷◌, ◌++◌, Text, if◌then◌else◌,
}
use iot_miniservers.Prelude.Int.{pos}
use iot_miniservers.Bridge.Poller.{PropertyChangeEvent}
use iot_miniservers.Bridge.Mqtt.{notifications_topic}

-- A configured transport is switched on or off.
pub record HttpNotifications : Type 0 where
  pub enabled : Bool
  pub address : Text

pub record DispatchConfig : Type 0 where
  pub http_notifications : Option HttpNotifications
  pub mqtt_notifications : Option Bool
  pub mqtt_client : Bool
  pub topic_prefix : Option Text

pub record NotificationPayload (V : Type 0) : Type 0 where
  pub device_id : ℕ
  pub property : Text
  pub value : Option V

-- A request, with the payload as its body, or a message with one property and its value or null.
pub data Sending (V : Type 0) : Type 0 where
  http : Text → NotificationPayload V → Sending V
  mqtt : Text → Text → Option V → Sending V

module _ {V : Type 0} where
  abbrev pub payload_of : PropertyChangeEvent V → NotificationPayload V
  payload_of event = record {
    device_id = event.miot_device_id;
    property = event.property;
    value = event.new_value;
  }

  unfoldable pub send_http : Option HttpNotifications → NotificationPayload V → List (Sending V)
  send_http none payload = []
  send_http (some h) payload = if h.enabled then http h.address payload ∷ [] else []

  unfoldable pub send_mqtt : DispatchConfig → NotificationPayload V → List (Sending V)
  send_mqtt config payload = elim config.mqtt_notifications [
    | none ↦ []
    | some false ↦ []
    | some true ↦
        if config.mqtt_client
        then mqtt (notifications_topic config.topic_prefix (pos payload.device_id)) payload.property
            payload.value
          ∷ []
        else []
  ]

  unfoldable pub receive : DispatchConfig → PropertyChangeEvent V → List (Sending V)
  unfolding send_http send_mqtt
  receive config event =
      send_http config.http_notifications (payload_of event) ++ send_mqtt config (payload_of event)
