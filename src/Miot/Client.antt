-- ===== src/Miot/Client.antt =====
-- packages/miot-device/src/MiotDevice.ts, the commands: each runs its command of the transport
-- under the stamp cycle.
use iot_miniservers.Prelude.{ℕ, Option, none, some, List, Text}
use iot_miniservers.Prelude.Int.{ℤ, int_eq}
use iot_miniservers.Prelude.Result.{ok, err}
use iot_miniservers.Miot.Error.{get_properties, set_properties, action}
use iot_miniservers.Miot.Transport.{
  Value, PropertyResult, MiotResponse, PropertyId, Arguments, Request,
}
use iot_miniservers.Miot.Transport.Commands
use iot_miniservers.Miot.Transport.Commands.{Sent, first_item, property_failure}
use iot_miniservers.Miot.Device.{Env, M, run_with_stamp}

module _ {W A : Type 0} where
  -- An operation of one packet reports no last stamp.
  abbrev pub plain : Sent W A → Sent W (A × Option ℕ)
  plain (ok a, w) = (ok (a, none), w)
  plain (err e, w) = (err e, w)

module _ {W A : Type 0} where
  -- An operation of several packets reports the last stamp used.
  abbrev pub with_final : Sent W (A × ℕ) → Sent W (A × Option ℕ)
  with_final (ok (a, final), w) = (ok (a, some final), w)
  with_final (err e, w) = (err e, w)

module _ {W : Type 0} (env : Env W) (show : ℤ → Text)
    (send : ℕ → ℕ → Request → W → Sent W MiotResponse) where
  unfoldable pub get_property : PropertyId → M W (Option Value)
  get_property p =
      run_with_stamp env get_properties
        (λ stamp id w. plain (Commands.get_property show send id stamp p w))

  unfoldable pub set_property : PropertyId → Value → M W (Unit {0})
  set_property p value =
      run_with_stamp env set_properties
        (λ stamp id w. plain (Commands.set_property show send id stamp p value w))

  unfoldable pub call_action : ℕ → ℕ → Arguments → M W (Unit {0})
  call_action siid aiid args =
      run_with_stamp env action
        (λ stamp id w. plain (Commands.call_action show send id stamp siid aiid args w))

  unfoldable pub get_each : List PropertyId → M W (List PropertyResult)
  get_each props =
      run_with_stamp env get_properties
        (λ stamp id w. with_final (Commands.get_each show send id stamp props w))
