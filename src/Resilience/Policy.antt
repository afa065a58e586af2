-- ===== src/Resilience/Policy.antt =====
-- packages/resilience/src/ResiliencePolicy.ts. The world W passes what is awaited; `aborted` reads
-- the parent signal in it, and once aborted it stays so. The policy of `cockatiel` around an attempt
-- (the breaker and the timeout, wrapped in that order, or none) is a parameter, as is the
-- passing of a delay. `attempted` and `retried` record, in order, the attempts and the calls of `onRetry`.
use iot_miniservers.Prelude.{
  ℕ, zero, suc, ◌+◌, Bool, false, not, ◌&&◌, ◌||◌, Option, none, some, List, [], ◌∷◌, ◌++◌, leb,
  if◌then◌else◌,
}
use iot_miniservers.Prelude.Result.{Result, ok, err}

-- What an attempt fails with: `ParentCancellationError`, or another error.
pub data Failure (E : Type 0) : Type 0 where
  parent_cancelled : Failure E
  failed : E → Failure E

pub data Note : Type 0 where
  attempted : Note
  retried : ℕ → ℕ → Note

pub record RetryConfig : Type 0 where
  pub count : ℕ
  pub backoff_ms : ℕ

-- What the code asks of its surroundings. `microtask` is the wait before a function is called,
-- `delay` the timer of a backoff.
pub record Surroundings (W E : Type 0) : Type 0 where
  pub aborted : W → Bool
  pub microtask : W → W
  pub delay : ℕ → W → W
  pub should_handle : E → Bool

abbrev pub Call : Type 0 → Type 0 → Type 0 → Type 0
Call W E A = W → Result (Failure E) A × W

-- A run of the loop: its result, the world, and what was noted.
pub record Outcome (W E A : Type 0) : Type 0 where
  pub result : Result (Failure E) A
  pub world : W
  pub notes : List Note

abbrev pub finished :
    {W E A : Type 0} → Result (Failure E) A → W → List Note → Option (Outcome W E A)
finished r w notes = some (record { result = r; world = w; notes = notes })

module _ {W E : Type 0} (env : Surroundings W E) where
  unfoldable pub wait_for_retry_backoff : Bool → ℕ → W → Bool × W
  wait_for_retry_backoff has_parent backoff_ms w =
      if has_parent && env.aborted w
      then (false, w)
      else (not (has_parent && env.aborted (env.delay backoff_ms w)), env.delay backoff_ms w)

  -- What is thrown by an attempt: the loop goes on only where `again` is left open.
  abbrev pub gives_up : ℕ → ℕ → E → Bool
  gives_up attempt max_retries e = leb max_retries attempt || not (env.should_handle e)

module _ {W E A : Type 0} (env : Surroundings W E) where
  -- How the promise around a function that has settled is settled: by the parent's abort, if there
  -- was one before.
  abbrev pub settle : Result (Failure E) A × W → Result (Failure E) A × W
  settle (r, w) = (if env.aborted w then err parent_cancelled else r, w)

  unfoldable pub execute_with_parent_cancellation : Bool → Call W E A → Call W E A
  execute_with_parent_cancellation has_parent fn w =
      if not has_parent
      then fn (env.microtask w)
      else if env.aborted w
      then (err parent_cancelled, w)
      else if env.aborted (env.microtask w)
      then (err parent_cancelled, env.microtask w)
      else settle (fn (env.microtask w))

  -- What follows an attempt: the answer, or the rest of the loop after the backoff.
  unfoldable pub after_attempt :
      Bool
      → RetryConfig
      → ℕ
      → (W → List Note → Option (Outcome W E A))
      → List Note
      → Result (Failure E) A × W
      → Option (Outcome W E A)
  unfolding wait_for_retry_backoff
  after_attempt has_parent retry attempt again notes (ok a, w) = finished (ok a) w notes
  after_attempt has_parent retry attempt again notes (err parent_cancelled, w) =
      finished (err parent_cancelled) w notes
  after_attempt has_parent retry attempt again notes (err (failed e), w) =
      let (waited, w') = wait_for_retry_backoff env has_parent retry.backoff_ms w in
      let notes' = notes ++ retried (attempt + 1) retry.backoff_ms ∷ [] in
      if has_parent && env.aborted w
      then finished (err parent_cancelled) w notes
      else if gives_up env attempt retry.count e
      then finished (err (failed e)) w notes
      else if waited
      then again w' notes'
      else finished (err parent_cancelled) w' notes'

  module _ (attempt_policy : Call W E A → Call W E A) (has_parent : Bool) (retry : RetryConfig)
      (fn : Call W E A) where
    -- The loop of `execute`: one round on each unit of fuel, `none` when there is none left.
    unfoldable pub execute_from : ℕ → ℕ → W → List Note → Option (Outcome W E A)
    unfolding after_attempt execute_with_parent_cancellation
    execute_from zero attempt w notes = none
    execute_from (suc fuel) attempt w notes =
        if has_parent && env.aborted w
        then finished (err parent_cancelled) w notes
        else after_attempt has_parent retry attempt (execute_from fuel (attempt + 1))
            (notes ++ attempted ∷ [])
            (attempt_policy (execute_with_parent_cancellation has_parent fn) w)

    -- `execute`, with the fuel that its loop needs.
    unfoldable pub execute_with_retries : W → Option (Outcome W E A)
    unfolding execute_from
    execute_with_retries w = execute_from (retry.count + 1) 0 w []

-- The filter of the breaker: `half_open` is whether the breaker is half open.
unfoldable pub breaker_counts : {E : Type 0} → (E → Bool) → Bool → Failure E → Bool
breaker_counts should_handle half_open parent_cancelled = half_open
breaker_counts should_handle half_open (failed e) = should_handle e
