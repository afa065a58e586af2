-- ===== src/Miot/Error.antt =====
-- packages/miot-device/src/MiotError.ts. A thrown value is a `MiotError` or another error, of which
-- the message is kept. `show` is the number formatting of JavaScript, a parameter.
use iot_miniservers.Prelude.{ℕ, Bool, true, Option, none, ◌++◌, Text, text}
use iot_miniservers.Prelude.Int.{ℤ}

pub data MiotErrorKind : Type 0 where
  timeout device_error transport_error : MiotErrorKind

pub data MiotMethod : Type 0 where
  handshake get_properties set_properties action : MiotMethod

pub record MiotError : Type 0 where
  pub message : Text
  pub kind : MiotErrorKind
  pub method : MiotMethod
  pub code : Option ℤ
  pub stamp_refreshed : Bool

pub data Thrown : Type 0 where
  miot_error : MiotError → Thrown
  other_error : Text → Thrown

abbrev pub message_of : Thrown → Text
message_of (miot_error e) = e.message
message_of (other_error m) = m

-- `MiotError.afterStampRefresh(value, method, deviceId)`.
unfoldable pub after_stamp_refresh : (ℕ → Text) → Thrown → MiotMethod → ℕ → MiotError
after_stamp_refresh show (miot_error e) method device_id = record {
  message =
      text "Operation failed after stamp refresh for device "
      ++ (show device_id ++ (text ": " ++ e.message));
  kind = e.kind;
  method = e.method;
  code = e.code;
  stamp_refreshed = true;
}
after_stamp_refresh show (other_error m) method device_id = record {
  message =
      text "Operation failed after stamp refresh for device "
      ++ (show device_id ++ (text ": " ++ m));
  kind = transport_error;
  method = method;
  code = none;
  stamp_refreshed = true;
}
