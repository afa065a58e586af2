-- ===== src/Bridge/Devices/Turns.antt =====
-- apis/miot-bridge-api/src/storage/device-local-storage/DeviceLocalStorageRepository.ts: calls that follow on one
-- another, and calls that overlap.
use iot_miniservers.Prelude.{
  ℕ, ◌≡◌, refl, ap, ◌∙◌, Bool, true, false, not, every, Option, none, some, ◌++◌, List, [], ◌∷◌,
  nat_eq, nat_eqb, arith,
}
use iot_miniservers.Prelude.Dict
use iot_miniservers.Bridge.Devices.{
  StoredDevice, Change, File, Turn, reads, writes, apply_change, written, turn, turns,
}

module _ {S N : Type 0} where
  abbrev pub apply_all : List (Change S N) → List (StoredDevice S N) → List (StoredDevice S N)
  apply_all [] devices = devices
  apply_all (c ∷ cs) devices = apply_all cs (apply_change c devices)

  -- Each call writes before the next one reads.
  abbrev pub one_by_one : ℕ → List (Change S N) → List (Turn S N)
  one_by_one caller [] = []
  one_by_one caller (c ∷ cs) = reads caller c ∷ writes caller ∷ one_by_one caller cs

  read_and_write :
      (caller : ℕ) (c : Change S N) (f : File S N)
      → (turn (writes caller) (turn (reads caller c) f)).stored ≡ apply_change c f.stored
  unfolding turn
  read_and_write caller c f = rw (Dict.get-insert, Dict.eq_self caller) refl

  -- Calls that follow on one another change the file as a list of devices changes.
  turns-one_by_one :
      (caller : ℕ) (cs : List (Change S N)) (f : File S N)
      → (turns (one_by_one caller cs) f).stored ≡ apply_all cs f.stored
  unfolding turns
  turns-one_by_one caller [] f = refl
  turns-one_by_one caller (c ∷ cs) f =
      turns-one_by_one caller cs (turn (writes caller) (turn (reads caller c) f))
      ∙ ap (apply_all cs) (read_and_write caller c f)

  -- The turns of other callers.
  abbrev pub caller_of : Turn S N → ℕ
  caller_of (reads caller c) = caller
  caller_of (writes caller) = caller

  abbrev pub not_of : ℕ → Turn S N → Bool
  not_of b t = not (nat_eqb (caller_of t) b)

  written-get :
      (a b : ℕ) (o : Option (List (StoredDevice S N))) (f : File S N)
      → nat_eqb a b ≡ false
      → Dict.get b (written a o f).open_calls ≡ Dict.get b f.open_calls
  written-get a b none f apart = refl
  written-get a b (some devices) f apart = Dict.get-remove a b f.open_calls ∙ rw apart refl

  turn-get :
      (b : ℕ) (t : Turn S N) (f : File S N)
      → nat_eqb (caller_of t) b ≡ false
      → Dict.get b (turn t f).open_calls ≡ Dict.get b f.open_calls
  unfolding turn
  turn-get b (reads a c) f apart =
      Dict.get-insert a b (apply_change c f.stored) f.open_calls ∙ rw apart refl
  turn-get b (writes a) f apart = written-get a b (Dict.get a f.open_calls) f apart

  -- What a call is going to write stays, whatever others do.
  turns-get :
      (b : ℕ) (ts : List (Turn S N)) (f : File S N) (devices : List (StoredDevice S N))
      → every (not_of b) ts ≡ true
      → Dict.get b f.open_calls ≡ some devices
      → (turns (ts ++ writes b ∷ []) f).stored ≡ devices
  unfolding turns turn
  turns-get b [] f devices others held = rw held refl
  turns-get b (t ∷ ts) f devices others held =
      turns-get b ts (turn t f) devices (ground (arith, others))
        (turn-get b t f (ground (arith, others)) ∙ held)

  -- When a call reads the file and writes it after any turns of other calls, whatever these have read and written in
  -- between, in any order, the file holds the change of that call to what it read: what the others have written in between is
  -- lost.
  pub turns-overlapping :
      (b : ℕ) (d : Change S N) (others : List (Turn S N)) (f : File S N)
      → every (not_of b) others ≡ true
      → (turns (reads b d ∷ others ++ writes b ∷ []) f).stored ≡ apply_change d f.stored
  unfolding turns turn
  turns-overlapping b d others f apart =
      turns-get b others (turn (reads b d) f) (apply_change d f.stored) apart
        (Dict.get-insert b b (apply_change d f.stored) f.open_calls ∙ rw (Dict.eq_self b) refl)
