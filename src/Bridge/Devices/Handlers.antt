-- ===== src/Bridge/Devices/Handlers.antt =====
-- apis/miot-bridge-api/src/handlers/devices and services/DeviceDiscoveryService.ts: registering a device, one request
-- after the other.
use iot_miniservers.Prelude.{ℕ, Option, none, some, List, Text, text_eq}
use iot_miniservers.Prelude.Result.{Result, ok, err, ◌>>=◌}
use iot_miniservers.Bridge.Devices.{
  NewDevice, StoredDevice, created, deleted, apply_change, persisted, get_by_id, get_by_device_id,
}

pub record DeviceRequest : Type 0 where
  pub address : Text
  pub token : Text
  pub model : Text

pub record DiscoveryResult (S D : Type 0) : Type 0 where
  pub device_id : ℕ
  pub stamp : ℕ
  pub spec_url : Text
  pub raw_spec : S
  pub simplified_spec : D

pub data DeviceError : Type 0 where
  discovery_failed : Text → DeviceError
  already_registered : ℕ → DeviceError
  device_not_found : Text → DeviceError

-- The handshake gives an id and a stamp; T is the specification as it is fetched, with its type.
pub record Discovery (S D T V : Type 0) : Type 0 where
  pub handshake : DeviceRequest → Result Text (ℕ × ℕ)
  pub fetch_raw : Text → Result Text T
  pub map_dto_to_model : T → Result Text S
  pub get_by_model : Text → Result Text V
  pub simplify : S → V → Result Text D
  pub spec_url : T → Text

module _ {S D T V : Type 0} (d : Discovery S D T V) where
  unfoldable pub discover_device : DeviceRequest → Result Text (DiscoveryResult S D)
  discover_device request = d.handshake request >>= λ hello. d.fetch_raw request.model >>= λ raw.
      d.map_dto_to_model raw >>= λ spec. d.get_by_model request.model >>= λ overrides.
      d.simplify spec overrides >>= λ simplified. ok (record {
        device_id = hello.0;
        stamp = hello.1;
        spec_url = d.spec_url raw;
        raw_spec = spec;
        simplified_spec = simplified;
      })

abbrev pub Devices : Type 0 → Type 0 → Type 0
Devices S N = List (StoredDevice S N)

module _ {S D : Type 0} where
  abbrev pub row_of : DeviceRequest → DiscoveryResult S D → NewDevice S
  row_of request found = record {
    device_id = found.device_id;
    address = request.address;
    token = request.token;
    stamp = found.stamp;
    stamp_updated_at = 0;
    model = request.model;
    spec_url = found.spec_url;
    raw_spec = found.raw_spec;
  }

module _ {S D N : Type 0} where
  abbrev pub register :
      Text
      → N
      → NewDevice S
      → D
      → Option (StoredDevice S N)
      → Devices S N
      → Result DeviceError (StoredDevice S N × D) × Devices S N
  register id now device spec (some existing) devices =
      (err (already_registered device.device_id), devices)
  register id now device spec none devices =
      (ok (persisted id now device, spec), apply_change (created id now device) devices)

  abbrev pub post_discovered :
      Text
      → N
      → DeviceRequest
      → Result Text (DiscoveryResult S D)
      → Devices S N
      → Result DeviceError (StoredDevice S N × D) × Devices S N
  post_discovered id now request (err m) devices = (err (discovery_failed m), devices)
  post_discovered id now request (ok found) devices =
      register id now (row_of request found) found.simplified_spec
        (get_by_device_id found.device_id devices) devices

module _ {S D T V N : Type 0} (d : Discovery S D T V) where
  -- DevicePostHandler, with the id and the instant of the new row
  unfoldable pub post :
      Text
      → N
      → DeviceRequest
      → Devices S N
      → Result DeviceError (StoredDevice S N × D) × Devices S N
  post id now request devices = post_discovered id now request (discover_device d request) devices

module _ {S N : Type 0} where
  abbrev pub delete_known :
      Text → Option (StoredDevice S N) → Devices S N → Result DeviceError (Unit {0}) × Devices S N
  delete_known id none devices = (err (device_not_found id), devices)
  delete_known id (some device) devices = (ok tt, apply_change (deleted id) devices)

  -- DeviceDeleteHandler, less the notifications of the device
  unfoldable pub delete : Text → Devices S N → Result DeviceError (Unit {0}) × Devices S N
  delete id devices = delete_known id (get_by_id id devices) devices
