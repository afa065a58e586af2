-- ===== src/Tests/Commands.antt =====
-- The device commands at concrete inputs. Values are numbers; the world is a fan's speed.
use iot_miniservers.Prelude.{ℕ, ◌≡◌, refl, some, [], ◌∷◌, text, or_else, nat_eq, text_eq}
use iot_miniservers.Prelude.Int.{pos}
use iot_miniservers.Prelude.Dict
use iot_miniservers.Prelude.Result.{ok, err}
use iot_miniservers.Bridge.Commands.{
  MiotProperty, SimplifiedMiotSpec, Device, DeviceCommandRequest, Services, Client, set_property,
  read, write, from_spec, value_not_allowed, resolve_command, resolve_operation, resolve_set,
}
use iot_miniservers.Bridge.Commands.Execute.{
  execute, execute_found, execute_on, perform_resolved, perform, answered, Contained,
  execute-Contained,
}

abbrev fan : Device
fan = record { id = text "fan"; device_id = 4; model = text "m" }

-- Only the speeds 1 and 2 may be set.
abbrev speed : MiotProperty ℕ
speed = record {
  siid = 2;
  piid = 3;
  access = read ∷ write ∷ [];
  values = record { value = 1; description = [] } ∷ record { value = 2; description = [] } ∷ [];
  source = from_spec;
}

abbrev spec : SimplifiedMiotSpec ℕ
spec = record { name = []; type_urn = []; properties = (text "speed", speed) ∷ []; actions = [] }

abbrev client : Client ℕ ℕ
client = record {
  get = λ s p w. (ok (some w), w);
  set = λ s p v w. (ok tt, or_else v w);
  act = λ s a v w. (ok tt, w);
  get_each = λ iids w. (ok (record { siid = 2; piid = 3; value = some w; code = pos 0 } ∷ []), w);
}

abbrev services : Services ℕ ℕ
services = record {
  by_id = λ id. ok (some fan);
  by_device_id = λ id. ok (some fan);
  spec_of = λ d. ok spec;
  client = λ d. client;
  now = λ w. 0;
}

abbrev set_speed : ℕ → DeviceCommandRequest ℕ
set_speed v = record {
  device_id = pos 4;
  command = text "speed";
  operation = set_property;
  value = some v;
}

allowed_speed : (execute services (set_speed 2) 1).world ≡ 2
unfolding execute execute_found execute_on perform_resolved perform answered resolve_command
    resolve_operation resolve_set Dict.get
allowed_speed = refl

forbidden_speed : (execute services (set_speed 7) 1).result ≡ err (value_not_allowed (text "speed"))
unfolding execute execute_found execute_on perform_resolved perform answered resolve_command
    resolve_operation resolve_set Dict.get
forbidden_speed = refl

execute-Contained_example : Contained services (set_speed 2) 1 (execute services (set_speed 2) 1)
execute-Contained_example = execute-Contained services (set_speed 2) 1
