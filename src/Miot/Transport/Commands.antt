-- ===== src/Miot/Transport/Commands.antt =====
-- packages/miot-device/src/MiotTransport.ts, the commands: `send` is `sendCommand`, which answers
-- with a response or throws.
use iot_miniservers.Prelude.{
  ℕ, ◌+◌, ◌-◌, Option, none, some, List, [], ◌∷◌, ◌++◌, Text, text, ltb, length, if◌then◌else◌,
  ◌==◌,
}
use iot_miniservers.Prelude.Int.{ℤ, pos, int_eq}
use iot_miniservers.Prelude.Result.{Result, ok, err}
use iot_miniservers.Miot.Error.{
  device_error, MiotMethod, get_properties, set_properties, handshake, action, Thrown,
}
use iot_miniservers.Miot.Transport.{
  Value, PropertyResult, MiotResponse, PropertyId, Arguments, no_arguments, array, scalar, Request,
  get_request, set_request, action_request, failure,
}

-- The words of the protocol, `MIOT_METHOD_*`.
unfoldable pub method_name : MiotMethod → Text
method_name handshake = text "handshake"
method_name get_properties = text "get_properties"
method_name set_properties = text "set_properties"
method_name action = text "action"

abbrev code_text : (ℤ → Text) → Option ℤ → Text
code_text show none = text "unknown"
code_text show (some c) = show c

-- `propertyError(method, code)`
unfoldable pub property_failure : (ℤ → Text) → MiotMethod → Option ℤ → Thrown
unfolding failure method_name
property_failure show method code =
    failure (method_name method ++ (text " failed: code " ++ code_text show code)) device_error
      method code

-- `results?.[0]` of a response, or the failure for one that is missing or carries another code.
unfoldable pub first_item :
    (ℤ → Text) → MiotMethod → Option (List PropertyResult) → Result Thrown PropertyResult
unfolding property_failure
first_item show method none = err (property_failure show method none)
first_item show method (some []) = err (property_failure show method none)
first_item show method (some (item ∷ items)) =
    if item.code == pos 0 then ok item else err (property_failure show method (some item.code))

abbrev pub Sent : Type 0 → Type 0 → Type 0
Sent W A = Result Thrown A × W

module _ {W A : Type 0} where
  -- What follows `await this.sendCommand(…)`.
  abbrev pub after : Sent W MiotResponse → (MiotResponse → W → Sent W A) → Sent W A
  after (ok response, w) k = k response w
  after (err e, w) k = (err e, w)

module _ {W : Type 0} (show : ℤ → Text) (send : ℕ → ℕ → Request → W → Sent W MiotResponse) where
  unfoldable pub get_property : ℕ → ℕ → PropertyId → W → Sent W (Option Value)
  unfolding first_item
  get_property device_id stamp p w = after (send device_id stamp (get_request p) w) (λ response w'.
      elim (first_item show get_properties response.result) [
        | ok item ↦ (ok item.value, w')
        | err e ↦ (err e, w')
      ])

  unfoldable pub set_property : ℕ → ℕ → PropertyId → Value → W → Sent W (Unit {0})
  unfolding first_item
  set_property device_id stamp p value w =
      after (send device_id stamp (set_request p value) w) (λ response w'.
        elim (first_item show set_properties response.result) [
          | ok item ↦ (ok tt, w')
          | err e ↦ (err e, w')
        ])

  abbrev in_args : Arguments → List Value
  in_args no_arguments = []
  in_args (array vs) = vs
  in_args (scalar v) = v ∷ []

  unfoldable pub call_action : ℕ → ℕ → ℕ → ℕ → Arguments → W → Sent W (Unit {0})
  call_action device_id stamp siid aiid args w =
      after (send device_id stamp (action_request siid aiid (in_args args)) w)
        (λ response w'. (ok tt, w'))

  abbrev pub items_of : Option (List PropertyResult) → List PropertyResult
  items_of none = []
  items_of (some items) = items

  -- `if (index < props.length - 1) currentStamp++`, for the last index and for the others.
  abbrev pub next_stamp : ℕ → ℕ → ℕ → ℕ
  next_stamp index count stamp = if ltb index (count - 1) then stamp + 1 else stamp

  -- The loop of `getProperties` from `index` on.
  unfoldable pub get_from :
      ℕ → ℕ → ℕ → ℕ → List PropertyId → List PropertyResult → W → Sent W (List PropertyResult × ℕ)
  get_from device_id count index current [] results w = (ok (results, current), w)
  get_from device_id count index current (p ∷ props) results w =
      after (send device_id current (get_request p) w) (λ response w'.
        get_from device_id count (index + 1) (next_stamp index count current) props
          (results ++ items_of response.result) w')

  unfoldable pub get_each : ℕ → ℕ → List PropertyId → W → Sent W (List PropertyResult × ℕ)
  unfolding get_from
  get_each device_id stamp props w = get_from device_id (length props) 0 stamp props [] w
