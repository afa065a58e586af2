-- ===== src/Http/Credentials.antt =====
-- packages/http-provider/src/strategies: TokenExchangeStrategy.ts and JwtSelfSignedStrategy.ts, as a machine over the
-- callers that ask, the calls of `invalidate` and the ends of fetches. `lifetime` is `claims.exp` of a
-- self-signed token; exchanged credentials have none. A fetch (a token request or a signing) has a number; times are in
-- seconds. What follows a fetch (`then` and `finally`) is one step.
use iot_miniservers.Prelude.{
  ℕ, ◌+◌, Bool, true, not, Option, none, some, List, [], ◌∷◌, ◌++◌, map, find, nat_eqb, leb,
  if◌then◌else◌,
}
use iot_miniservers.Prelude.Result.{Result, ok, err}

-- `epoch` tells from when the value is: it is only noted.
pub record Kept (C : Type 0) : Type 0 where
  pub value : C
  pub expires_at : Option ℕ
  pub epoch : ℕ

-- `inFlightCredentials` and `inFlightEpoch`, which are set and cleared together.
pub record Flight : Type 0 where
  pub number : ℕ
  pub flight_epoch : ℕ

pub record Fetch : Type 0 where
  pub number : ℕ
  pub request_epoch : ℕ
  pub waiting : List ℕ

pub record Strategy (C : Type 0) : Type 0 where
  pub cached : Option (Kept C)
  pub in_flight : Option Flight
  pub cache_epoch : ℕ
  pub pending : List Fetch
  pub started : ℕ

pub data Occasion (E C : Type 0) : Type 0 where
  wanted : ℕ → ℕ → Occasion E C
  invalidated : Occasion E C
  fetched : ℕ → ℕ → Result E C → Occasion E C

abbrev pub Answers : Type 0 → Type 0 → Type 0
Answers E C = List (ℕ × Result E C)

-- `!isExpired`, for a time of expiry that is known.
abbrev pub usable : ℕ → Option ℕ → Bool
usable now none = true
usable now (some expires_at) = not (leb expires_at (now + 30))

abbrev pub expiry : Option ℕ → ℕ → Option ℕ
expiry none now = none
expiry (some lifetime) now = some (now + lifetime)

abbrev pub wait_on : ℕ → ℕ → Fetch → Fetch
wait_on number caller f =
    if nat_eqb f.number number then record f { waiting = caller ∷ f.waiting } else f

abbrev pub remove_fetch : ℕ → List Fetch → List Fetch
remove_fetch number [] = []
remove_fetch number (f ∷ fs) = if nat_eqb f.number number then fs else f ∷ remove_fetch number fs

abbrev pub flying : Option Flight → ℕ → Option ℕ
flying none epoch = none
flying (some flight) epoch = if nat_eqb flight.flight_epoch epoch then some flight.number else none

-- The `finally` of a fetch.
abbrev pub clear : ℕ → Option Flight → Option Flight
clear request_epoch none = none
clear request_epoch (some flight) =
    if nat_eqb flight.flight_epoch request_epoch then none else some flight

module _ {C : Type 0} where
  abbrev pub cached_for : ℕ → Option (Kept C) → Option C
  cached_for now none = none
  cached_for now (some kept) = if usable now kept.expires_at then some kept.value else none

  -- A caller joins the fetch in flight, or starts one.
  unfoldable pub join_or_start : ℕ → Option ℕ → Strategy C → Strategy C
  join_or_start caller (some number) s = record s {
    pending = map (wait_on number caller) s.pending;
  }
  join_or_start caller none s = record s {
    in_flight = some (record { number = s.started; flight_epoch = s.cache_epoch });
    pending =
        record { number = s.started; request_epoch = s.cache_epoch; waiting = caller ∷ [] }
        ∷ s.pending;
    started = s.started + 1;
  }

  unfoldable pub invalidate : Strategy C → Strategy C
  invalidate s = record s { cache_epoch = s.cache_epoch + 1; cached = none }

  -- The `then` of a fetch: only an answer for the current epoch is kept.
  abbrev pub keep : {E : Type 0} → Option ℕ → ℕ → ℕ → Result E C → Strategy C → Strategy C
  keep lifetime now request_epoch (err e) s = s
  keep lifetime now request_epoch (ok c) s =
      if nat_eqb s.cache_epoch request_epoch
      then record s {
        cached =
            some (record { value = c; expires_at = expiry lifetime now; epoch = request_epoch });
      }
      else s

module _ {E C : Type 0} where
  abbrev pub answer_or_wait : ℕ → Option C → Strategy C → Answers E C × Strategy C
  answer_or_wait caller (some c) s = ((caller, ok c) ∷ [], s)
  answer_or_wait caller none s = ([], join_or_start caller (flying s.in_flight s.cache_epoch) s)

  unfoldable pub get_credentials : ℕ → ℕ → Strategy C → Answers E C × Strategy C
  get_credentials caller now s = answer_or_wait caller (cached_for now s.cached) s

  module _ (lifetime : Option ℕ) where
    abbrev pub settle_fetch :
        ℕ → ℕ → Result E C → Option Fetch → Strategy C → Answers E C × Strategy C
    settle_fetch number now result none s = ([], s)
    settle_fetch number now result (some f) s = (
      map (λ caller. (caller, result)) f.waiting,
      record (keep lifetime now f.request_epoch result s) {
        in_flight = clear f.request_epoch s.in_flight;
        pending = remove_fetch number s.pending;
      },
    )

    unfoldable pub happen : Occasion E C → Strategy C → Answers E C × Strategy C
    unfolding get_credentials invalidate
    happen (wanted caller now) s = get_credentials caller now s
    happen invalidated s = ([], invalidate s)
    happen (fetched number now result) s =
        settle_fetch number now result (find (λ f. nat_eqb f.number number) s.pending) s

    unfoldable pub happen_all : List (Occasion E C) → Strategy C → Answers E C × Strategy C
    unfolding happen
    happen_all [] s = ([], s)
    happen_all (x ∷ xs) s =
        let (answers, s') = happen x s in
        let (later, s'') = happen_all xs s' in (answers ++ later, s'')

abbrev pub unused : {C : Type 0} → Strategy C
unused = record { cached = none; in_flight = none; cache_epoch = 0; pending = []; started = 0 }
