-- ===== src/Bridge/Poller.antt =====
-- apis/miot-bridge-api/src/services/DevicePropertyPollerService.ts. The maps are kept in insertion
-- order, a `Set` is a list without repetition. Spans and logs are left out. `isEnabled` of
-- @radoslavirha/utils is a parameter.
pub mod Polling
pub mod Backoff
pub mod Changes
pub mod Ticks
pub mod Soundness
use iot_miniservers.Prelude.{
  ℕ, ◌+◌, ◌-◌, Bool, true, false, not, ◌&&◌, ◌||◌, Option, none, some, List, [], ◌∷◌, ◌++◌, Text,
  starts_with, any, filter, length, leb, ltb, nat_eqb, if◌then◌else◌, Eq, ◌==◌, text_eq, or_else,
}
use iot_miniservers.Prelude.Int.{ℤ, pos, int_eq}
pub use iot_miniservers.Otel.Jobs.{JobOutcome, success, failure}
use iot_miniservers.Prelude.Dict
use iot_miniservers.Prelude.Dict.{Dict}
use iot_miniservers.Prelude.Result.{Result, ok, err}

pub record PollingConfig : Type 0 where
  pub enabled : Option Bool
  pub interval_ms : ℕ
  pub dispatch_on_change : Bool
  pub max_error_count : ℕ
  pub error_skip_cycles : ℕ
  pub trace_interval_ms : Option ℕ

pub record PollTarget : Type 0 where
  pub device_id : Text
  pub properties : List Text

-- One property of an answer of the device.
pub record Reading (V : Type 0) : Type 0 where
  pub key : Text
  pub value : Option V
  pub code : ℤ

pub record PropertyChangeEvent (V : Type 0) : Type 0 where
  pub device_id : Text
  pub miot_device_id : ℕ
  pub property : Text
  pub old_value : Option V
  pub new_value : Option V
  pub timestamp : ℕ

pub record Poller (V : Type 0) : Type 0 where
  pub timer : Bool
  pub ticking : Bool
  pub subscriptions : Dict Text (List Text)
  pub last_values : Dict Text (Option V)
  pub error_counts : Dict Text ℕ
  pub skip_cycles : Dict Text ℕ
  pub last_traced_at : ℕ

-- `set.add(p)`
abbrev pub add : Text → List Text → List Text
add p set = if any (λ q. q == p) set then set else set ++ p ∷ []

abbrev pub add_all : List Text → List Text → List Text
add_all [] set = set
add_all (p ∷ ps) set = add_all ps (add p set)

-- `${deviceId}:${property}`
abbrev pub cache_key : Text → Text → Text
cache_key device_id property = device_id ++ (58 ∷ property)

-- What is left of a set of properties: the device goes with the last of them.
abbrev pub store : Text → List Text → Dict Text (List Text) → Dict Text (List Text)
store device_id [] subscriptions = Dict.remove device_id subscriptions
store device_id (p ∷ ps) subscriptions = Dict.insert device_id (p ∷ ps) subscriptions

abbrev pub without :
    Text → Text → Option (List Text) → Dict Text (List Text) → Dict Text (List Text)
without device_id property none subscriptions = subscriptions
without device_id property (some set) subscriptions =
    store device_id (filter (λ p. not (p == property)) set) subscriptions

-- `this._skipCycles.get(deviceId) ?? 0`
unfoldable pub skip_remaining : Text → Dict Text ℕ → ℕ
skip_remaining device_id skips = or_else (Dict.get device_id skips) 0

unfoldable pub count_down : Text → Dict Text ℕ → Dict Text ℕ
count_down device_id skips =
    if ltb 0 (skip_remaining device_id skips)
    then Dict.insert device_id (skip_remaining device_id skips - 1) skips
    else skips

-- The loop of `dueDevices`: the targets, and the skip counts counted down.
unfoldable pub due_from : Dict Text (List Text) → Dict Text ℕ → List PollTarget × Dict Text ℕ
due_from [] skips = ([], skips)
due_from ((device_id, set) ∷ subscriptions) skips =
    let rest = due_from subscriptions (count_down device_id skips) in
    (
      (if ltb 0 (skip_remaining device_id skips)
          then rest.0
          else record { device_id = device_id; properties = set } ∷ rest.0),
      rest.1,
    )

abbrev traced_interval : Option PollingConfig → ℕ
traced_interval none = 60000
traced_interval (some config) = or_else config.trace_interval_ms 60000

abbrev max_errors : Option PollingConfig → ℕ
max_errors none = 3
max_errors (some config) = config.max_error_count

abbrev skip_count : Option PollingConfig → ℕ
skip_count none = 20
skip_count (some config) = config.error_skip_cycles

module _ {V : Type 0} where
  unfoldable pub init : Poller V
  init = record {
    timer = false;
    ticking = false;
    subscriptions = [];
    last_values = [];
    error_counts = [];
    skip_cycles = [];
    last_traced_at = 0;
  }

  unfoldable pub add_subscriptions : Text → List Text → Poller V → Poller V
  add_subscriptions device_id properties s = record s {
    subscriptions =
        Dict.insert device_id (add_all properties (or_else (Dict.get device_id s.subscriptions) []))
          s.subscriptions;
  }

  unfoldable pub remove_subscription : Text → Text → Poller V → Poller V
  remove_subscription device_id property s = record s {
    subscriptions = without device_id property (Dict.get device_id s.subscriptions) s.subscriptions;
    last_values = Dict.remove (cache_key device_id property) s.last_values;
  }

  unfoldable pub remove_all_subscriptions : Text → Poller V → Poller V
  remove_all_subscriptions device_id s = record s {
    subscriptions = Dict.remove device_id s.subscriptions;
    last_values =
        filter (λ entry. not (starts_with entry.0 (cache_key device_id []))) s.last_values;
  }

  -- The loop of `loadSubscriptions` over the stored pairs of a device and a property.
  unfoldable pub load_subscriptions : List (Text × Text) → Poller V → Poller V
  load_subscriptions [] s = s
  load_subscriptions ((device_id, property) ∷ all) s = load_subscriptions all (record s {
    subscriptions =
        Dict.insert device_id (add property (or_else (Dict.get device_id s.subscriptions) []))
          s.subscriptions;
  })

  unfoldable pub due_devices : Poller V → List PollTarget × Poller V
  unfolding due_from
  due_devices s =
      let (due, skips) = due_from s.subscriptions s.skip_cycles in
      (due, record s { skip_cycles = skips })

  unfoldable pub failing_count : List PollTarget → Poller V → ℕ
  failing_count due s =
      length (filter (λ target. ltb 0 (or_else (Dict.get target.device_id s.error_counts) 0)) due)

  unfoldable pub should_trace :
      Option PollingConfig → List PollTarget → ℕ → Poller V → Bool × Poller V
  unfolding failing_count
  should_trace config due now s =
      let interval = traced_interval config in
      let traced =
        ltb 0 (failing_count due s) || leb interval 0 || leb (s.last_traced_at + interval) now in
      (traced, if traced then record s { last_traced_at = now } else s)

  -- The `catch` of `readDevice`.
  unfoldable pub record_failure : Option PollingConfig → Text → Poller V → Poller V
  record_failure config device_id s =
      let count = or_else (Dict.get device_id s.error_counts) 0 + 1 in
      if leb (max_errors config) count
      then record s {
        error_counts = Dict.remove device_id s.error_counts;
        skip_cycles = Dict.insert device_id (skip_count config) s.skip_cycles;
      }
      else record s { error_counts = Dict.insert device_id count s.error_counts }

  module _ ⦃e : Eq V⦄ where
    abbrev pub same : Option V → Option V → Bool
    same none none = true
    same none (some b) = false
    same (some a) none = false
    same (some a) (some b) = a == b

    -- One round of the loop of `readDevice` over the readings.
    unfoldable pub publish :
        Text
        → ℕ
        → ℕ
        → Bool
        → Reading V
        → Dict Text (Option V)
        → Dict Text (Option V) × List (PropertyChangeEvent V)
    publish device_id miot_device_id now dispatch_on_change r values =
        let old = or_else (Dict.get (cache_key device_id r.key) values) none in
        let changed = not (same old r.value) in
        if not (r.code == pos 0)
        then (values, [])
        else if changed || not dispatch_on_change
        then (
          Dict.insert (cache_key device_id r.key) r.value values,
          record {
            device_id = device_id;
            miot_device_id = miot_device_id;
            property = r.key;
            old_value = if changed then old else r.value;
            new_value = r.value;
            timestamp = now;
          }
              ∷ [],
        )
        else (values, [])

    unfoldable pub publish_all :
        Text
        → ℕ
        → ℕ
        → Bool
        → List (Reading V)
        → Dict Text (Option V)
        → Dict Text (Option V) × List (PropertyChangeEvent V)
    publish_all device_id miot_device_id now dispatch_on_change [] values = (values, [])
    publish_all device_id miot_device_id now dispatch_on_change (r ∷ rs) values =
        let (values', emitted) = publish device_id miot_device_id now dispatch_on_change r values in
        let (values'', later) =
          publish_all device_id miot_device_id now dispatch_on_change rs values' in
        (values'', emitted ++ later)

    -- `readDevice`, from the answer of `getProperties` on: what is thrown is not looked into.
    unfoldable pub read_device :
        (PollingConfig → Bool)
        → Option PollingConfig
        → ℕ
        → Text
        → Result Text (ℕ × List (Reading V))
        → Poller V
        → JobOutcome × Poller V × List (PropertyChangeEvent V)
    unfolding record_failure publish_all
    read_device is_enabled config now device_id (err m) s =
        (failure, record_failure config device_id s, [])
    read_device is_enabled none now device_id (ok (miot_device_id, results)) s = (success, s, [])
    read_device is_enabled (some config) now device_id (ok (miot_device_id, results)) s =
        if is_enabled config
        then (let (values, emitted) =
              publish_all device_id miot_device_id now config.dispatch_on_change results
                s.last_values in
            (
              success,
              record s {
                last_values = values;
                error_counts = Dict.remove device_id s.error_counts;
              },
              emitted,
            ))
        else (success, s, [])
