-- ===== src/Otel/Owners.antt =====
-- packages/otel/src/spanTracing.ts: which calls end a span, and which promises will.
use iot_miniservers.Prelude.{
  ℕ, ◌+◌, ◌≡◌, ◌∙◌, refl, Option, none, some, List, [], ◌∷◌, Text, arith, if◌then◌else◌, nat_eqb,
  nat_eqb_iff, ltb, nat_eq,
}
use iot_miniservers.Prelude.Dict
use iot_miniservers.Prelude.Result.{Result, ok, err}
use iot_miniservers.Otel.{
  JobInstruments, ApiCall, span_started, exception_recorded, status_failed, span_ended, measured,
  Telemetry,
}
use iot_miniservers.Otel.Spans.{Reaction, end_settled, record_span_error}
use iot_miniservers.Otel.Jobs.{
  JobOutcome, success, failure, JobSkipReason, kept_or_built, job_instruments, record_run,
  record_item, record_job_skip,
}
use iot_miniservers.Otel.Schedule.{record_items}
use iot_miniservers.Otel.Accounting.{measuring}

-- One for the span in question, if there is one.
abbrev pub hits : ℕ → Option ℕ → ℕ
hits i none = 0
hits i (some j) = if nat_eqb i j then 1 else 0

-- What the pending promises will end.
abbrev pub owned : ℕ → List (Option (Option ℕ)) → ℕ
owned i [] = 0
owned i (none ∷ spans) = owned i spans
owned i (some span ∷ spans) = hits i span + owned i spans

pub one_more :
    (i n : ℕ) → (if ltb i n then 1 else 0) + hits i (some n) ≡ (if ltb i (n + 1) then 1 else 0)
one_more i n = ground (arith, nat_eqb_iff i n)

module _ {C E : Type 0} where
  abbrev pub ends : ℕ → List (ApiCall C E) → ℕ
  ends i [] = 0
  ends i (span_ended j ∷ log) = let n = ends i log in if nat_eqb i j then n + 1 else n
  ends i (measured m ∷ log) = ends i log
  ends i (span_started t n k r c ∷ log) = ends i log
  ends i (exception_recorded s e ∷ log) = ends i log
  ends i (status_failed s e ∷ log) = ends i log

  -- What lies between two states ends the span, or none.
  abbrev pub Closes : Option ℕ → Telemetry C E → Telemetry C E → Type 0
  Closes span w v = (v.spans ≡ w.spans) × ((i : ℕ) → ends i v.log ≡ ends i w.log + hits i span)

  pub then-Closes :
      (span : Option ℕ) (u v w : Telemetry C E)
      → Closes none u v
      → Closes span v w
      → Closes span u w
  then-Closes span u v w (same, quiet) (same', closes) =
      (same' ∙ same, λ i. omega (arith, quiet i, closes i))

  kept_or_built-Closes :
      (found : Option JobInstruments) (w : Telemetry C E) → Closes none w (kept_or_built found w).1
  kept_or_built-Closes (some is) w = (refl, λ i. omega arith)
  kept_or_built-Closes none w = (refl, λ i. omega arith)

  pub record_run-Closes :
      (job : Text) (t : ℕ) (outcome : JobOutcome) (w : Telemetry C E)
      → Closes none w (record_run job t outcome w)
  unfolding record_run job_instruments
  record_run-Closes job t outcome w = kept_or_built-Closes (Dict.get w.provider w.instruments) w

  pub record_item-Closes :
      (job : Text) (outcome : JobOutcome) (n : ℕ) (w : Telemetry C E)
      → Closes none w (record_item job outcome n w)
  unfolding record_item job_instruments
  record_item-Closes job outcome n w = kept_or_built-Closes (Dict.get w.provider w.instruments) w

  pub record_job_skip-Closes :
      (job : Text) (reason : JobSkipReason) (w : Telemetry C E)
      → Closes none w (record_job_skip job reason w)
  unfolding record_job_skip job_instruments
  record_job_skip-Closes job reason w = kept_or_built-Closes (Dict.get w.provider w.instruments) w

  pub record_items-Closes :
      (job : Text) (span : Option ℕ) (items : List (JobOutcome × ℕ)) (w : Telemetry C E)
      → Closes none w (record_items (record { span = span; record_item = record_item job }) items w)
  record_items-Closes job span [] w = (refl, λ i. omega arith)
  record_items-Closes job span ((outcome, n) ∷ items) w =
      then-Closes none w (record_item job outcome n w)
        (record_items (record { span = span; record_item = record_item job }) items
          (record_item job outcome n w))
        (record_item-Closes job outcome n w)
        (record_items-Closes job span items (record_item job outcome n w))

module _ {C E A : Type 0} where
  -- The span that a promise ends when it settles.
  abbrev pub Owns : Option ℕ → Reaction (Telemetry C E) E A → Type 0
  Owns span react = (r : Result E A) (w : Telemetry C E) → Closes span w (react r w).1

  pub measuring-Owns : (job : Text) (t : ℕ) → Owns none (measuring {C = C} job t)
  measuring-Owns job t (ok x) w = record_run-Closes job t success w
  measuring-Owns job t (err e) w = record_run-Closes job t failure w

  pub end_settled-Owns :
      (job : Text) (t n : ℕ) → Owns (some n) (λ r w. end_settled n (measuring {C = C} job t r w))
  unfolding record_span_error
  end_settled-Owns job t n (ok x) w =
      let (same, quiet) = record_run-Closes job t success w in (same, λ i. ground (arith, quiet i))
  end_settled-Owns job t n (err e) w =
      let (same, quiet) = record_run-Closes job t failure w in (same, λ i. ground (arith, quiet i))

  pub data Holds
      : List (Option (Reaction (Telemetry C E) E A)) → List (Option (Option ℕ)) → Type 0 where
    nothing : Holds [] []
    over :
        (ps : List (Option (Reaction (Telemetry C E) E A))) (os : List (Option (Option ℕ)))
        → Holds ps os
        → Holds (none ∷ ps) (none ∷ os)
    awaited :
        (span : Option ℕ) (react : Reaction (Telemetry C E) E A)
        (ps : List (Option (Reaction (Telemetry C E) E A))) (os : List (Option (Option ℕ)))
        → Owns span react
        → Holds ps os
        → Holds (some react ∷ ps) (some span ∷ os)
