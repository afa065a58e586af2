-- ===== src/Tests/Spec.antt =====
-- The mapper of specifications at a fan whose published specification lacks its turbo mode and has
-- the access of its speed wrong.
use iot_miniservers.Prelude.{
  ℕ, ◌≡◌, refl, none, some, List, [], ◌∷◌, text, text_eq, nat_eq, or_else,
}
use iot_miniservers.Prelude.Dict
use iot_miniservers.Prelude.Int.{pos}
use iot_miniservers.Prelude.Result.{ok}
use iot_miniservers.Bridge.Commands.Execute.{execute}
use iot_miniservers.Bridge.Spec.Sources.{Traced, mapped_services, execute-Traced}
use iot_miniservers.Bridge.Commands.{
  Device, Services, Client, DeviceCommandRequest, get_property, MiotProperty, SimplifiedMiotSpec,
  PropertyAccess, read, write, notify, from_override,
}
use iot_miniservers.Bridge.Spec.{
  MiotSpecV2, MiotSpecV2PropertyAccess, spec_read, spec_write, spec_notify, ModelPropertyOverride,
  Mapping, map_spec, action_results, action_entry, input_keys, input_key, name_of, split, set_all,
  override_entry, find_service, service_entries, property_entry,
}
use iot_miniservers.Bridge.Spec.Provenance.{Origin, map_spec-Origin}

abbrev same_access : MiotSpecV2PropertyAccess → PropertyAccess
same_access spec_read = read
same_access spec_write = write
same_access spec_notify = notify

abbrev lib : Mapping ℕ
lib = record {
  map_enum = same_access;
  property_order = λ entries. entries;
  action_order = λ entries. entries;
  rejection = λ e errors. e;
  show = λ n. n ∷ [];
}

abbrev fan : MiotSpecV2 ℕ
fan = record {
  type_urn = text "urn:fan";
  description = text "Fan";
  services =
      record {
        iid = 2;
        type_urn = text "urn:s:service:fan:1";
        properties = some (
            record {
              iid = 3;
              type_urn = text "urn:s:property:speed:1";
              access = spec_read ∷ [];
              value_list = none;
            }
            ∷ []);
        actions =
            some (record { iid = 1; type_urn = text "urn:s:action:toggle:1"; input = 3 ∷ [] } ∷ []);
      }
      ∷ [];
}

-- The second is of no service.
abbrev overrides : List (ModelPropertyOverride ℕ)
overrides =
    record { key = text "speed"; siid = 2; piid = 3; access = read ∷ write ∷ []; values = [] }
    ∷ record { key = text "turbo"; siid = 9; piid = 1; access = write ∷ []; values = [] }
    ∷ []

abbrev corrected : MiotProperty ℕ
corrected = record {
  siid = 2;
  piid = 3;
  access = read ∷ write ∷ [];
  values = [];
  source = from_override;
}

abbrev fan_spec : SimplifiedMiotSpec ℕ
fan_spec = record {
  name = text "Fan";
  type_urn = text "urn:fan";
  properties = (text "fan:speed", corrected) ∷ [];
  actions =
      (text "fan:toggle", record { siid = 2; aiid = 1; input = some (text "fan:speed" ∷ []) }) ∷ [];
}

fan_mapped : map_spec lib fan overrides ≡ ok fan_spec
unfolding map_spec action_results action_entry input_keys input_key name_of split set_all
    override_entry find_service service_entries property_entry Dict.insert
fan_mapped = refl

map_spec-Origin_example :
    Origin lib fan overrides (text "fan:speed") (Dict.get (text "fan:speed") fan_spec.properties)
map_spec-Origin_example =
    map_spec-Origin lib (λ key p entries. (λ l. l, λ l. l)) fan overrides fan_spec fan_mapped
      (text "fan:speed")

abbrev fan_device : Device
fan_device = record { id = text "fan"; device_id = 4; model = text "m" }

abbrev fan_client : Client ℕ ℕ
fan_client = record {
  get = λ s p w. (ok (some w), w);
  set = λ s p v w. (ok tt, or_else v w);
  act = λ s a v w. (ok tt, w);
  get_each = λ iids w. (ok [], w);
}

abbrev bridge : Services ℕ ℕ
bridge = record {
  by_id = λ id. ok (some fan_device);
  by_device_id = λ id. ok (some fan_device);
  spec_of = λ d. ok fan_spec;
  client = λ d. fan_client;
  now = λ w. 0;
}

abbrev read_speed : DeviceCommandRequest ℕ
read_speed = record {
  device_id = pos 4;
  command = text "fan:speed";
  operation = get_property;
  value = none;
}

execute-Traced_example :
    Traced lib
      (λ d. fan)
      (λ model. ok overrides)
      bridge
      read_speed
      7
      (execute (mapped_services lib (λ d. fan) (λ model. ok overrides) bridge) read_speed 7)
execute-Traced_example =
    execute-Traced lib (λ d. fan) (λ model. ok overrides) bridge (λ key p entries. (λ l. l, λ l. l))
      read_speed 7
