-- ===== src/Bridge/Commands/Properties.antt =====
-- DeviceCommandService.ts: `getProperties`, which the poller calls. `logged` is the set of keys that
-- have been warned of; the second component of a report is what is warned of now.
use iot_miniservers.Prelude.{
  ℕ, Bool, ◌&&◌, Option, none, some, List, [], ◌∷◌, ◌++◌, Text, any, find, map, nat_eqb,
  if◌then◌else◌, ◌==◌, text_eq,
}
use iot_miniservers.Prelude.Int.{negsuc}
use iot_miniservers.Prelude.Dict
use iot_miniservers.Prelude.Dict.{Dict, eq_self}
use iot_miniservers.Prelude.Result.{Result, ok, err}
use iot_miniservers.Miot.Error.{Thrown}
use iot_miniservers.Bridge.Commands.{
  MiotProperty, SimplifiedMiotSpec, PropertySource, Device, DeviceReading, KeyedPropertyResult,
  CommandError, device_not_found, lookup_failed, device_failed, Services,
}

-- A key of a request with what it resolves to.
pub record Wanted : Type 0 where
  pub key : Text
  pub siid : ℕ
  pub piid : ℕ
  pub source : PropertySource

module _ {V : Type 0} where
  unfoldable pub resolve_key :
      Text → Option (MiotProperty V) → List Wanted × List Text → List Wanted × List Text
  resolve_key key (some p) (props, unresolved) =
      (record { key = key; siid = p.siid; piid = p.piid; source = p.source } ∷ props, unresolved)
  resolve_key key none (props, unresolved) = (props, key ∷ unresolved)

  -- The loop over the keys: the wanted properties and the keys that do not resolve, both in order.
  unfoldable pub resolve_keys : SimplifiedMiotSpec V → List Text → List Wanted × List Text
  unfolding resolve_key
  resolve_keys spec [] = ([], [])
  resolve_keys spec (key ∷ keys) =
      resolve_key key (Dict.get key spec.properties) (resolve_keys spec keys)

  abbrev pub answers_to : Wanted → DeviceReading V → Bool
  answers_to p r = nat_eqb r.siid p.siid && nat_eqb r.piid p.piid

  -- `MIOT_PROPERTY_CODE_MISSING` is -1.
  unfoldable pub keyed : Wanted → Option (DeviceReading V) → KeyedPropertyResult V
  keyed p none = record {
    key = p.key;
    siid = p.siid;
    piid = p.piid;
    source = p.source;
    value = none;
    code = negsuc 0;
  }
  keyed p (some r) = record {
    key = p.key;
    siid = p.siid;
    piid = p.piid;
    source = p.source;
    value = r.value;
    code = r.code;
  }

  unfoldable pub match_results : List (DeviceReading V) → List Wanted → List (KeyedPropertyResult V)
  unfolding keyed
  match_results raw props = map (λ p. keyed p (find (answers_to p) raw)) props

abbrev pub seen_key : Text → Text → Text
seen_key storage_id key = storage_id ++ (58 ∷ key)

-- `reportUnresolvedProperties`
unfoldable pub report_unresolved : Text → List Text → List Text → List Text × List Text
report_unresolved storage_id [] logged = (logged, [])
report_unresolved storage_id (key ∷ keys) logged =
    let known = any (λ k. k == seen_key storage_id key) logged in
    let rest =
      report_unresolved storage_id keys
        (if known then logged else seen_key storage_id key ∷ logged) in
    (rest.0, if known then rest.1 else key ∷ rest.1)

-- What a read comes to.
pub record Reads (V W : Type 0) : Type 0 where
  pub result : Result CommandError (ℕ × List (KeyedPropertyResult V))
  pub logged : List Text
  pub warned : List Text
  pub world : W

-- What follows the answer of the device.
unfoldable pub read_answer :
    {V W : Type 0}
    → Device
    → List Wanted
    → Result Thrown (List (DeviceReading V)) × W
    → Result CommandError (ℕ × List (KeyedPropertyResult V)) × W
unfolding match_results
read_answer device props (ok raw, w) = (ok (device.device_id, match_results raw props), w)
read_answer device props (err e, w) = (err (device_failed e), w)

module _ {V W : Type 0} (env : Services V W) where
  unfoldable pub read_wanted :
      Device → List Wanted → W → Result CommandError (ℕ × List (KeyedPropertyResult V)) × W
  unfolding read_answer
  read_wanted device [] w = (ok (device.device_id, []), w)
  read_wanted device (p ∷ props) w =
      read_answer device (p ∷ props)
        ((env.client device).get_each (map (λ q. (q.siid, q.piid)) (p ∷ props)) w)

  unfoldable pub read_resolved :
      Text → Device → SimplifiedMiotSpec V → List Text → List Text → W → Reads V W
  unfolding read_wanted
  read_resolved storage_id device spec keys logged w =
      let (props, unresolved) = resolve_keys spec keys in
      let (logged', warned) = report_unresolved storage_id unresolved logged in
      let (result, w') = read_wanted device props w in
      record { result = result; logged = logged'; warned = warned; world = w' }

  abbrev failed : CommandError → List Text → W → Reads V W
  failed error logged w = record { result = err error; logged = logged; warned = []; world = w }

  unfoldable pub read_on :
      Text → Device → Result Text (SimplifiedMiotSpec V) → List Text → List Text → W → Reads V W
  unfolding read_resolved
  read_on storage_id device (err m) keys logged w = failed (lookup_failed m) logged w
  read_on storage_id device (ok spec) keys logged w =
      read_resolved storage_id device spec keys logged w

  unfoldable pub read_found :
      Text → Result Text (Option Device) → List Text → List Text → W → Reads V W
  unfolding read_on
  read_found storage_id (err m) keys logged w = failed (lookup_failed m) logged w
  read_found storage_id (ok none) keys logged w = failed device_not_found logged w
  read_found storage_id (ok (some device)) keys logged w =
      read_on storage_id device (env.spec_of device) keys logged w

  unfoldable pub get_properties : Text → List Text → List Text → W → Reads V W
  unfolding read_found
  get_properties storage_id keys logged w =
      read_found storage_id (env.by_id storage_id) keys logged w
