-- ===== src/Resilience/Retries.antt =====
-- How often a call is attempted, and why the loop ends.
use iot_miniservers.Prelude.{
  ℕ, zero, suc, ◌+◌, ◌≤◌, ◌≡◌, ◌⊎◌, false, Option, some, List, [], ◌∷◌, ◌++◌,
}
use iot_miniservers.Prelude.Result.{Result, ok, err}
use iot_miniservers.Resilience.Policy.{
  Failure, parent_cancelled, failed, Note, attempted, retried, RetryConfig, Surroundings, Outcome,
}

-- What is noted before the attempt that has `n` retries before it.
abbrev pub script : ℕ → ℕ → List Note
script backoff_ms zero = []
script backoff_ms (suc n) = script backoff_ms n ++ attempted ∷ retried (n + 1) backoff_ms ∷ []

module _ {W E A : Type 0} (env : Surroundings W E) (retry : RetryConfig) where
  -- The error of the last attempt is thrown when no retry is left or it is not one to handle.
  abbrev pub Justified : ℕ → Result (Failure E) A → Type 0
  Justified k (ok a) = Unit {0}
  Justified k (err parent_cancelled) = Unit {0}
  Justified k (err (failed e)) = (k ≡ retry.count) ⊎ (env.should_handle e ≡ false)

  -- A run that has ended: cancelled between attempts, or with its last attempt.
  abbrev pub Ended : Option (Outcome W E A) → Type 0
  Ended run =
      (o : Outcome W E A) × (run ≡ some o)
      × (k : ℕ) × (k ≤ retry.count)
      × (((o.notes ≡ script retry.backoff_ms k) × (o.result ≡ err parent_cancelled))
          ⊎ ((o.notes ≡ script retry.backoff_ms k ++ attempted ∷ []) × Justified k o.result))
