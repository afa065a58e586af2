-- ===== src/Bridge/Mqtt/Topics.antt =====
-- The topic of a device's commands leads back to the device.
use iot_miniservers.Prelude.{
  ◌-◌, ◌≡◌, refl, sym, ap, ◌∙◌, true, Option, some, [], ◌∷◌, ◌++◌, append_assoc, Text, text, arith,
  length, length-append, take, drop, take-append, drop-append, starts_with-append, ends_with,
  ends_with-append,
}
use iot_miniservers.Prelude.Int.{ℤ}
use iot_miniservers.Prelude.Decimal.{show_int, parse_int-show_int}
use iot_miniservers.Bridge.Mqtt.{
  get_prefix, device_path, command_front, command_topic, extract_device_id,
}

-- What stands between a front and an end.
between :
    (front middle end : Text)
    → drop
        (length front)
        (take (length (front ++ (middle ++ end)) - length end) (front ++ (middle ++ end)))
      ≡ middle
between front middle end =
    let e : length (front ++ (middle ++ end)) - length end ≡ length (front ++ middle) = omega (
      arith,
      length-append front (middle ++ end),
      length-append middle end,
      length-append front middle,
    ) in
    rw (e, ← append_assoc front middle end, take-append (front ++ middle) end)
      (drop-append front middle)

module _ (topic_prefix : Option Text) where
  command_topic-front :
      (id : ℤ)
      → command_topic topic_prefix id
        ≡ command_front topic_prefix ++ (show_int id ++ text "/command")
  unfolding command_topic
  command_topic-front id = fits (get_prefix topic_prefix)
    where
      fits :
          (p : Text)
          → elim p [
            | [] ↦ device_path (show_int id) (text "command")
            | c ∷ cs ↦ (c ∷ cs) ++ (text "/" ++ device_path (show_int id) (text "command"))
          ]
            ≡ elim p [
              | [] ↦ text "miot-bridge/device/"
              | c ∷ cs ↦ (c ∷ cs) ++ text "/miot-bridge/device/"
            ]
              ++ (show_int id ++ text "/command")
      fits [] = refl
      fits (c ∷ cs) =
          sym (append_assoc (c ∷ cs) (text "/miot-bridge/device/") (show_int id ++ text "/command"))

  -- The device id is read back from the command topic of a device, under every prefix.
  pub extract_device_id-command_topic :
      (id : ℤ) → extract_device_id topic_prefix (command_topic topic_prefix id) ≡ some id
  unfolding extract_device_id
  extract_device_id-command_topic id =
      let whole = command_front topic_prefix ++ (show_int id ++ text "/command") in
      let ended : ends_with whole (text "/command") ≡ true =
        ap (λ t. ends_with t (text "/command"))
          (sym (append_assoc (command_front topic_prefix) (show_int id) (text "/command")))
        ∙ ends_with-append (command_front topic_prefix ++ show_int id) (text "/command") in
      rw
        (
          command_topic-front id,
          starts_with-append (command_front topic_prefix) (show_int id ++ text "/command"),
          ended,
          between (command_front topic_prefix) (show_int id) (text "/command"),
        )
        (parse_int-show_int id)
