-- ===== src/Bridge/Registry.antt =====
-- apis/miot-bridge-api/src/services/MiotDeviceRegistry.ts: the clients of the devices, one for each
-- device id. A client is an object that its users share, so the registry keeps handles into the list
-- of all clients ever created, and a use of a client changes it there.
pub mod Sharing
use iot_miniservers.Prelude.{
  ℕ, zero, suc, Option, none, some, List, [], ◌∷◌, ◌++◌, Text, length, nat_eq, or_else,
}
use iot_miniservers.Prelude.Dict
use iot_miniservers.Prelude.Dict.{Dict}
use iot_miniservers.Miot.Device.{StampState}

-- The fields of the record of a device that the registry reads.
pub record DeviceCache : Type 0 where
  pub device_id : ℕ
  pub address : Text
  pub token : Text
  pub stamp : Option ℕ
  pub stamp_updated_at : Option ℕ

pub record MiotDeviceOptions : Type 0 where
  pub address : Text
  pub token : Text
  pub device_id : Option ℕ

-- The fields of a client that change.
pub record ClientState : Type 0 where
  pub device_id : Option ℕ
  pub stamp_state : Option StampState

pub record Instance : Type 0 where
  pub options : MiotDeviceOptions
  pub state : ClientState

pub record DeviceRegistry : Type 0 where
  pub handles : Dict ℕ ℕ
  pub created : List Instance

abbrev pub empty_registry : DeviceRegistry
empty_registry = record { handles = []; created = [] }

-- `new MiotDevice(options)`
abbrev pub new_device : MiotDeviceOptions → Instance
new_device options = record {
  options = options;
  state = record { device_id = options.device_id; stamp_state = none };
}

-- `setStampState`
abbrev pub set_stamp_state : StampState → Instance → Instance
set_stamp_state s i = record {
  options = i.options;
  state = record { device_id = i.state.device_id; stamp_state = some s };
}

abbrev pub seed : Option ℕ → Option ℕ → Instance → Instance
seed none updated i = i
seed (some stamp) updated i =
    set_stamp_state (record { stamp = stamp; updated_at = or_else updated 0 }) i

abbrev pub instance_of : DeviceCache → Instance
instance_of device = seed device.stamp device.stamp_updated_at (
    new_device (record {
      address = device.address;
      token = device.token;
      device_id = some device.device_id;
    }))

abbrev pub kept_or_created : DeviceCache → DeviceRegistry → Option ℕ → ℕ × DeviceRegistry
kept_or_created device r (some existing) = (existing, r)
kept_or_created device r none = (
  length r.created,
  record {
    handles = Dict.insert device.device_id (length r.created) r.handles;
    created = r.created ++ instance_of device ∷ [];
  },
)

unfoldable pub get_or_create : DeviceCache → DeviceRegistry → ℕ × DeviceRegistry
get_or_create device r = kept_or_created device r (Dict.get device.device_id r.handles)

unfoldable pub remove : ℕ → DeviceRegistry → DeviceRegistry
remove id r = record { handles = Dict.remove id r.handles; created = r.created }

-- What a user of a client makes of its fields.
abbrev pub change_at : ℕ → (ClientState → ClientState) → List Instance → List Instance
change_at n f [] = []
change_at zero f (i ∷ is) = record { options = i.options; state = f i.state } ∷ is
change_at (suc n) f (i ∷ is) = i ∷ change_at n f is

-- What happens to the registry and to the clients it has given out.
pub data Event : Type 0 where
  accessed : DeviceCache → Event
  removed : ℕ → Event
  used : ℕ → (ClientState → ClientState) → Event

abbrev pub react : Event → DeviceRegistry → DeviceRegistry
react (accessed device) r = (get_or_create device r).1
react (removed id) r = remove id r
react (used h f) r = record { handles = r.handles; created = change_at h f r.created }

abbrev pub react_all : List Event → DeviceRegistry → DeviceRegistry
react_all [] r = r
react_all (e ∷ es) r = react_all es (react e r)
