-- ===== src/Bridge/Devices.antt =====
-- apis/miot-bridge-api/src: the devices in their file (storage/device-local-storage, services/DeviceLocalStorageService.ts)
-- and the handlers that register and delete them (handlers/devices, services/DeviceDiscoveryService.ts). S is a
-- published specification, D the simplified one, N an instant. The handshake, the fetching of a specification, the mappers and
-- the overrides of a model are parameters, and so are the ids that are drawn.
pub mod Handlers
pub mod Turns
pub mod Registration
use iot_miniservers.Prelude.{
  ℕ, ◌+◌, Bool, not, Option, none, some, List, [], ◌∷◌, ◌++◌, Text, text_eq, nat_eqb, nat_eq, find,
  filter, if◌then◌else◌, ◌==◌,
}
use iot_miniservers.Prelude.Dict
use iot_miniservers.Prelude.Dict.{Dict}
use iot_miniservers.Prelude.Result.{Result, ok, err, ◌>>=◌}

pub record NewDevice (S : Type 0) : Type 0 where
  pub device_id : ℕ
  pub address : Text
  pub token : Text
  pub stamp : ℕ
  pub stamp_updated_at : ℕ
  pub model : Text
  pub spec_url : Text
  pub raw_spec : S

pub record StoredDevice (S N : Type 0) : Type 0 where
  pub id : Text
  pub fields : NewDevice S
  pub created_at : N
  pub updated_at : N

-- What one call of the repository makes of the devices that it has read.
pub data Change (S N : Type 0) : Type 0 where
  created : Text → N → NewDevice S → Change S N
  updated : N → StoredDevice S N → Change S N
  deleted : Text → Change S N

-- A call of the repository waits twice: when it reads, and when it writes.
pub data Turn (S N : Type 0) : Type 0 where
  reads : ℕ → Change S N → Turn S N
  writes : ℕ → Turn S N

-- The file, and what each call that has read it and not written yet is going to write.
pub record File (S N : Type 0) : Type 0 where
  pub stored : List (StoredDevice S N)
  pub open_calls : Dict ℕ (List (StoredDevice S N))

module _ {S N : Type 0} where
  abbrev pub persisted : Text → N → NewDevice S → StoredDevice S N
  persisted id now device = record { id = id; fields = device; created_at = now; updated_at = now }

  -- `devices[index] = persisted`: an index of -1 puts nothing into the array that is written.
  abbrev pub replace : StoredDevice S N → List (StoredDevice S N) → List (StoredDevice S N)
  replace device [] = []
  replace device (d ∷ devices) =
      if d.id == device.id then device ∷ devices else d ∷ replace device devices

  unfoldable pub apply_change : Change S N → List (StoredDevice S N) → List (StoredDevice S N)
  apply_change (created id now device) devices = devices ++ persisted id now device ∷ []
  apply_change (updated now device) devices = replace (record device { updated_at = now }) devices
  apply_change (deleted id) devices = filter (λ d. not (d.id == id)) devices

  unfoldable pub get_by_id : Text → List (StoredDevice S N) → Option (StoredDevice S N)
  get_by_id id devices = find (λ d. d.id == id) devices

  unfoldable pub get_by_device_id : ℕ → List (StoredDevice S N) → Option (StoredDevice S N)
  get_by_device_id device_id devices = find (λ d. nat_eqb d.fields.device_id device_id) devices

  abbrev pub written : ℕ → Option (List (StoredDevice S N)) → File S N → File S N
  written caller none f = f
  written caller (some devices) f = record {
    stored = devices;
    open_calls = Dict.remove caller f.open_calls;
  }

  unfoldable pub turn : Turn S N → File S N → File S N
  turn (reads caller change) f = record f {
    open_calls = Dict.insert caller (apply_change change f.stored) f.open_calls;
  }
  turn (writes caller) f = written caller (Dict.get caller f.open_calls) f

  unfoldable pub turns : List (Turn S N) → File S N → File S N
  turns [] f = f
  turns (t ∷ ts) f = turns ts (turn t f)
