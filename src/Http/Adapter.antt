-- ===== src/Http/Adapter.antt =====
-- packages/http-provider/src/HttpProviderFactory.ts: `wrapAdapterWithPolicy`, which has every request go through the
-- resilience policy (packages/resilience). An adapter sends what a request asks for; Q is that, and the signal
-- that the policy hands on is read in the world.
use iot_miniservers.Prelude.{
  ℕ, ◌+◌, ◌≤◌, ◌≡◌, refl, ap, inl, inr, Bool, ◌&&◌, Option, none, some, List, or_else, arith,
  Bool-cases, Option-cases, zero, suc, [],
}
use iot_miniservers.Prelude.Result.{Result, ok, err}
use iot_miniservers.Resilience.Policy.{
  Failure, parent_cancelled, failed, Note, Surroundings, RetryConfig, Call, Outcome, finished,
  execute_with_parent_cancellation, after_attempt, execute_from, execute_with_retries, gives_up,
  wait_for_retry_backoff,
}

abbrev pub Adapter : Type 0 → Type 0 → Type 0 → Type 0 → Type 0
Adapter W Q E A = Q → Call W E A

-- `base` is `_resilienceBaseAdapter`.
pub record PolicyRequestConfig (W Q E A : Type 0) : Type 0 where
  pub request : Q
  pub has_signal : Bool
  pub adapter : Option (Adapter W Q E A)
  pub base : Option (Adapter W Q E A)

-- A run of the policy, which always ends (Resilience.Retries).
abbrev pub ended : {W E A : Type 0} → W → Option (Outcome W E A) → Result (Failure E) A × W
ended w none = (err parent_cancelled, w)
ended w (some o) = (o.result, o.world)

module _ {W E A : Type 0} (env : Surroundings W E) (attempt_policy : Call W E A → Call W E A)
    (retry : RetryConfig) where
  abbrev pub through_policy : Bool → Call W E A → Call W E A
  through_policy has_signal fn w =
      ended w (execute_with_retries env attempt_policy has_signal retry fn w)

module _ {W Q E A : Type 0} (env : Surroundings W E) (attempt_policy : Call W E A → Call W E A)
    (retry : RetryConfig) where
  unfoldable pub wrap_adapter :
      Adapter W Q E A → PolicyRequestConfig W Q E A → PolicyRequestConfig W Q E A
  wrap_adapter default config =
      let base = or_else config.base (or_else config.adapter default) in
      record config {
        base = some base;
        adapter = some (λ q. through_policy env attempt_policy retry config.has_signal (base q));
      }

  -- A request that is replayed is wrapped again, to no effect.
  pub wrap_adapter_idempotent :
      (default : Adapter W Q E A) (config : PolicyRequestConfig W Q E A)
      → wrap_adapter default (wrap_adapter default config) ≡ wrap_adapter default config
  unfolding wrap_adapter
  wrap_adapter_idempotent default config = refl

-- What is relied on, for a count `calls` of the calls that have gone out: waiting sends nothing, and the policy
-- around an attempt (a breaker, a timeout) calls its function at most once.
pub record IsFrugal {W E A : Type 0} (calls : W → ℕ) (env : Surroundings W E)
    (attempt_policy : Call W E A → Call W E A) : Type 0 where
  pub microtask_waits : (w : W) → calls (env.microtask w) ≡ calls w
  pub delay_waits : (ms : ℕ) (w : W) → calls (env.delay ms w) ≡ calls w
  pub once :
      (fn : Call W E A)
      → ((w : W) → calls (fn w).1 ≤ calls w + 1)
      → (w : W) → calls (attempt_policy fn w).1 ≤ calls w + 1

abbrev world_of : {W E A : Type 0} → W → Option (Outcome W E A) → W
world_of w none = w
world_of w (some o) = o.world

module _ {W E A : Type 0} (calls : W → ℕ) (env : Surroundings W E)
    (attempt_policy : Call W E A → Call W E A) (frugal : IsFrugal calls env attempt_policy) where
  module _ (fn : Call W E A) (single : (w : W) → calls (fn w).1 ≤ calls w + 1)
      (has_parent : Bool) where
    cancellable-le :
        (w : W) → calls (execute_with_parent_cancellation env has_parent fn w).1 ≤ calls w + 1
    unfolding execute_with_parent_cancellation
    cancellable-le w = ground (arith, frugal.microtask_waits w, single (env.microtask w))

    -- However a run ends, it has sent at most `n` calls.
    abbrev Spends : ℕ → W → Option (Outcome W E A) → Type 0
    Spends n w run = (o : Outcome W E A) → run ≡ some o → calls o.world ≤ calls w + n

    finished-Spends :
        (n : ℕ) (r : Result (Failure E) A) (w v : W) (notes : List Note)
        → calls v ≤ calls w + n
        → Spends n w (finished r v notes)
    finished-Spends n r w v notes h o e = ground (arith, h, ap (λ x. world_of v x) e)

    module _ (retry : RetryConfig) where
      after_attempt-Spends :
          (k n : ℕ) (again : W → List Note → Option (Outcome W E A)) (notes : List Note) (w : W)
          (a : Result (Failure E) A × W)
          → calls a.1 ≤ calls w + 1
          → ((v : W) (ns : List Note) → Spends n v (again v ns))
          → Spends (suc n) w (after_attempt env has_parent retry k again notes a)
      unfolding after_attempt wait_for_retry_backoff
      after_attempt-Spends k n again notes w (ok x, v) few h =
          finished-Spends (suc n) (ok x) w v notes (omega (arith, few))
      after_attempt-Spends k n again notes w (err parent_cancelled, v) few h =
          finished-Spends (suc n) (err parent_cancelled) w v notes (omega (arith, few))
      after_attempt-Spends k n again notes w (err (failed e), v) few h =
          elim (Bool-cases (has_parent && env.aborted v)) [
            | inl gone ↦
                rw gone
                  (finished-Spends (suc n) (err parent_cancelled) w v notes (omega (arith, few)))
            | inr here ↦ elim (Bool-cases (gives_up env k retry.count e)) [
              | inl over ↦
                  rw (here, over)
                    (finished-Spends (suc n) (err (failed e)) w v notes (omega (arith, few)))
              | inr more ↦
                  let v' = env.delay retry.backoff_ms v in
                  elim (Bool-cases (has_parent && env.aborted v')) [
                    | inl late ↦
                        rw (here, more, late)
                          (finished-Spends (suc n) (err parent_cancelled) w v' _
                            (omega (arith, few, frugal.delay_waits retry.backoff_ms v)))
                    | inr waited ↦
                        rw (here, more, waited)
                          (λ o e.
                            omega (arith, few, h v' _ o e, frugal.delay_waits retry.backoff_ms v))
                  ]
            ]
          ]

      execute_from-Spends :
          (fuel k : ℕ) (w : W) (notes : List Note)
          → Spends fuel w (execute_from env attempt_policy has_parent retry fn fuel k w notes)
      unfolding execute_from
      execute_from-Spends zero k w notes = λ o e. cc
      execute_from-Spends (suc fuel) k w notes = elim (Bool-cases (has_parent && env.aborted w)) [
        | inl gone ↦
            rw gone (finished-Spends (suc fuel) (err parent_cancelled) w w notes (omega arith))
        | inr here ↦ rw here (
            after_attempt-Spends k fuel
              (execute_from env attempt_policy has_parent retry fn fuel (k + 1)) _ w _
              (frugal.once (execute_with_parent_cancellation env has_parent fn) cancellable-le w)
              (λ v ns. execute_from-Spends fuel (k + 1) v ns))
      ]

      pub through_policy-le :
          (w : W)
          → calls (through_policy env attempt_policy retry has_parent fn w).1
            ≤ calls w + (retry.count + 1)
      unfolding execute_with_retries
      through_policy-le w =
          let run = execute_from env attempt_policy has_parent retry fn (retry.count + 1) 0 w [] in
          elim (Option-cases run) [
            | inl out ↦ rw out (omega arith)
            | inr (o, e) ↦ rw e (execute_from-Spends (retry.count + 1) 0 w [] o e)
          ]
