-- ===== src/Bridge/Commands/Reads.antt =====
-- What a read of properties answers, and what it warns of.
use iot_miniservers.Prelude.{
  ℕ, ◌≡◌, refl, sym, Bool, true, false, inl, inr, Option, none, some, List, [], ◌∷◌, Text, arith,
  Option-cases, Bool-cases, any, find, map, filter, is_some, ◌==◌, text_eq,
}
use iot_miniservers.Prelude.Dict
use iot_miniservers.Prelude.Dict.{Dict, eq_self}
use iot_miniservers.Prelude.Result.{Result, ok, err}
use iot_miniservers.Miot.Error.{Thrown}
use iot_miniservers.Bridge.Commands.{
  SimplifiedMiotSpec, Device, DeviceReading, KeyedPropertyResult, CommandError, Services,
}
use iot_miniservers.Bridge.Commands.Properties.{
  Wanted, resolve_keys, resolve_key, keyed, match_results, answers_to, seen_key, report_unresolved,
  read_wanted, read_answer, read_resolved, read_on, read_found, get_properties,
}

module _ {V : Type 0} where
  abbrev pub resolves : SimplifiedMiotSpec V → Text → Bool
  resolves spec key = is_some (Dict.get key spec.properties)

  resolve_keys-filter :
      (spec : SimplifiedMiotSpec V) (keys : List Text)
      → map (λ p. p.key) (resolve_keys spec keys).0 ≡ filter (resolves spec) keys
  unfolding resolve_keys resolve_key
  resolve_keys-filter spec [] = refl
  resolve_keys-filter spec (key ∷ keys) = elim (Option-cases (Dict.get key spec.properties)) [
    | inl unknown ↦ rw unknown (resolve_keys-filter spec keys)
    | inr (p, found) ↦ rw (found, resolve_keys-filter spec keys) refl
  ]

  keyed-key : (p : Wanted) (r : Option (DeviceReading V)) → (keyed p r).key ≡ p.key
  unfolding keyed
  keyed-key p none = refl
  keyed-key p (some r) = refl

  match_results-keys :
      (raw : List (DeviceReading V)) (props : List Wanted)
      → map (λ x. x.key) (match_results raw props) ≡ map (λ p. p.key) props
  unfolding match_results
  match_results-keys raw [] = refl
  match_results-keys raw (p ∷ props) =
      rw (keyed-key p (find (answers_to p) raw), match_results-keys raw props) refl

-- A read that returns, with results for just these keys.
abbrev pub Answers :
    {V : Type 0} → ℕ → List Text → Result CommandError (ℕ × List (KeyedPropertyResult V)) → Type 0
Answers {V} id keys r =
    (results : List (KeyedPropertyResult V)) × (r ≡ ok (id, results))
    × (map (λ x. x.key) results ≡ keys)

abbrev pub is_ok : {A : Type 0} → Result Thrown A → Bool
is_ok (ok a) = true
is_ok (err e) = false

module _ {V W : Type 0} where
  read_answer-Answers :
      (device : Device) (props : List Wanted) (a : Result Thrown (List (DeviceReading V)) × W)
      → is_ok a.0 ≡ true
      → Answers device.device_id (map (λ p. p.key) props) (read_answer device props a).0
  unfolding read_answer
  read_answer-Answers device props (ok raw, w) h =
      (match_results raw props, refl, match_results-keys raw props)
  read_answer-Answers device props (err e, w) h = ground (arith, h)

  module _ (env : Services V W) where
    -- The device answers whatever it is asked to read.
    abbrev pub IsAnswering : Device → Type 0
    IsAnswering device =
        (iids : List (ℕ × ℕ)) (w : W) → is_ok ((env.client device).get_each iids w).0 ≡ true

    read_wanted-Answers :
        (device : Device) (props : List Wanted) (w : W)
        → IsAnswering device
        → Answers device.device_id (map (λ p. p.key) props) (read_wanted env device props w).0
    unfolding read_wanted
    read_wanted-Answers device [] w h = ([], refl, refl)
    read_wanted-Answers device (p ∷ props) w h = read_answer-Answers device (p ∷ props) _ (h _ w)

    read_resolved-Answers :
        (storage_id : Text) (device : Device) (spec : SimplifiedMiotSpec V)
        (keys logged : List Text) (w : W)
        → IsAnswering device
        → Answers device.device_id
            (filter (resolves spec) keys)
            (read_resolved env storage_id device spec keys logged w).result
    unfolding read_resolved
    read_resolved-Answers storage_id device spec keys logged w h =
        rw (sym (resolve_keys-filter spec keys))
          (read_wanted-Answers device (resolve_keys spec keys).0 w h)

    -- A read of properties returns for a device that the storage knows, that has a specification
    -- and that answers, whatever it says of the single properties. The results are for the keys
    -- that the specification resolves, all of them and in the order asked for.
    get_properties-Answers :
        (storage_id : Text) (device : Device) (spec : SimplifiedMiotSpec V)
        (keys logged : List Text) (w : W)
        → env.by_id storage_id ≡ ok (some device)
        → env.spec_of device ≡ ok spec
        → IsAnswering device
        → Answers device.device_id
            (filter (resolves spec) keys)
            (get_properties env storage_id keys logged w).result
    unfolding get_properties read_found read_on
    get_properties-Answers storage_id device spec keys logged w f g h =
        rw (f, g) (read_resolved-Answers storage_id device spec keys logged w h)

report_unresolved-kept :
    (storage_id x : Text) (keys logged : List Text)
    → any (λ k. k == x) logged ≡ true
    → any (λ k. k == x) (report_unresolved storage_id keys logged).0 ≡ true
unfolding report_unresolved
report_unresolved-kept storage_id x [] logged h = h
report_unresolved-kept storage_id x (key ∷ keys) logged h =
    elim (Bool-cases (any (λ k. k == seen_key storage_id key) logged)) [
      | inl known ↦ rw known (report_unresolved-kept storage_id x keys logged h)
      | inr unknown ↦ rw unknown (
          report_unresolved-kept storage_id x keys (seen_key storage_id key ∷ logged)
            (ground (arith, h)))
    ]

-- Every key of the list has been warned of.
abbrev AllSeen : Text → List Text → List Text → Type 0
AllSeen storage_id [] logged = Unit {0}
AllSeen storage_id (key ∷ keys) logged =
    (any (λ k. k == seen_key storage_id key) logged ≡ true) × AllSeen storage_id keys logged

report_unresolved-AllSeen :
    (storage_id : Text) (keys logged : List Text)
    → AllSeen storage_id keys (report_unresolved storage_id keys logged).0
unfolding report_unresolved
report_unresolved-AllSeen storage_id [] logged = tt
report_unresolved-AllSeen storage_id (key ∷ keys) logged =
    elim (Bool-cases (any (λ k. k == seen_key storage_id key) logged)) [
      | inl known ↦ rw known (
        report_unresolved-kept storage_id (seen_key storage_id key) keys logged known,
        report_unresolved-AllSeen storage_id keys logged,
      )
      | inr unknown ↦
          let logged' = seen_key storage_id key ∷ logged in
          rw unknown (
            report_unresolved-kept storage_id (seen_key storage_id key) keys logged'
                (ground (arith, eq_self (seen_key storage_id key))),
            report_unresolved-AllSeen storage_id keys logged',
          )
    ]

AllSeen-report_unresolved :
    (storage_id : Text) (keys logged : List Text)
    → AllSeen storage_id keys logged
    → report_unresolved storage_id keys logged ≡ (logged, [])
unfolding report_unresolved
AllSeen-report_unresolved storage_id [] logged h = refl
AllSeen-report_unresolved storage_id (key ∷ keys) logged (known, h) =
    rw (known, AllSeen-report_unresolved storage_id keys logged h) refl

-- A key that does not resolve is warned of once in the life of the service: reporting the same keys
-- of a device again warns of nothing and remembers nothing new.
pub report_unresolved-again :
    (storage_id : Text) (keys logged : List Text)
    → let logged' = (report_unresolved storage_id keys logged).0 in
      report_unresolved storage_id keys logged' ≡ (logged', [])
report_unresolved-again storage_id keys logged =
    AllSeen-report_unresolved storage_id keys _ (report_unresolved-AllSeen storage_id keys logged)
