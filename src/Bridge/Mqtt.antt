-- ===== src/Bridge/Mqtt.antt =====
-- apis/miot-bridge-api/src/services/MqttTopicService.ts. `topic_prefix` is the configured
-- `mqtt.topicPrefix`, if there is one.
pub mod Topics
pub mod Listener
pub mod Answers
pub mod Dispatch
use iot_miniservers.Prelude.{
  ◌+◌, ◌-◌, Bool, not, ◌||◌, Option, none, some, List, [], ◌∷◌, ◌++◌, Text, text, length, take,
  drop, starts_with, ends_with, strip_trailing, if◌then◌else◌,
}
use iot_miniservers.Prelude.Int.{ℤ}
use iot_miniservers.Prelude.Decimal.{show_int, parse_int}

abbrev pub device_path : Text → Text → Text
device_path id channel = text "miot-bridge/device/" ++ (id ++ (text "/" ++ channel))

module _ (topic_prefix : Option Text) where
  abbrev pub get_prefix : Text
  get_prefix = elim topic_prefix [ none ↦ [] | some raw ↦ strip_trailing 47 raw ]

  abbrev pub build : Text → Text
  build path = elim get_prefix [ [] ↦ path | c ∷ cs ↦ (c ∷ cs) ++ (text "/" ++ path) ]

  unfoldable pub command_subscription_pattern : Text
  command_subscription_pattern = build (device_path (text "+") (text "command"))

  unfoldable pub command_topic : ℤ → Text
  command_topic id = build (device_path (show_int id) (text "command"))

  unfoldable pub response_topic : ℤ → Text
  response_topic id = build (device_path (show_int id) (text "response"))

  unfoldable pub notifications_topic : ℤ → Text
  notifications_topic id = build (device_path (show_int id) (text "notifications"))

  abbrev pub command_front : Text
  command_front = elim get_prefix [
    | [] ↦ text "miot-bridge/device/"
    | c ∷ cs ↦ (c ∷ cs) ++ text "/miot-bridge/device/"
  ]

  unfoldable pub extract_device_id : Text → Option ℤ
  extract_device_id topic =
      if not (starts_with topic command_front) || not (ends_with topic (text "/command"))
      then none
      else parse_int (drop (length command_front) (take (length topic - 8) topic))
