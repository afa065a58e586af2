-- ===== src/Otel/Closing.antt =====
-- packages/otel/src/spanTracing.ts: how often the spans of jobs are ended.
use iot_miniservers.Prelude.{
  ℕ, ◌+◌, ◌≤◌, zero, suc, ◌≡◌, ◌∙◌, refl, Bool, true, false, or_else, Bool-cases, Option, none,
  some, List, [], ◌∷◌, Text, arith, inl, inr, if◌then◌else◌, ltb, nat_eq, every,
}
use iot_miniservers.Prelude.Result.{Result, ok, err}
use iot_miniservers.Otel.{internal, span_started, Telemetry, ContextApi}
use iot_miniservers.Otel.Spans.{Reaction, end_on, with_entry_point_span, with_span, end_on_settle}
use iot_miniservers.Otel.Jobs.{
  success, failure, JobRunOptions, record_on, record_on_settle, run_job,
}
use iot_miniservers.Otel.Schedule.{
  BodyEnd, raises, gives, awaits, Body, JobEvent, registered, elapsed, ran, handled, settled,
  skipped, Schedule, ending_of, keep_promise, settle_promise, handle, handle_events,
}
use iot_miniservers.Otel.Accounting.{idle}
use iot_miniservers.Otel.Owners.{
  hits, owned, ends, Closes, then-Closes, record_run-Closes, record_item-Closes,
  record_job_skip-Closes, record_items-Closes, one_more, Owns, measuring-Owns, end_settled-Owns,
  Holds, nothing, over, awaited,
}

module _ {C E A : Type 0} where
  -- Behind a call: what the spans were, with one more to end, by now or by a promise.
  record Leaves (span : Option ℕ) (w : Telemetry C E) (os : List (Option (Option ℕ)))
      (s : Schedule C E A) : Type 0 where
    owners : List (Option (Option ℕ))
    holds : Holds s.promises owners
    same : s.telemetry.spans ≡ w.spans
    told :
        (i : ℕ) → ends i s.telemetry.log + owned i owners ≡ ends i w.log + owned i os + hits i span

  module _ (ps : List (Option (Reaction (Telemetry C E) E A))) (os : List (Option (Option ℕ)))
      (holds : Holds ps os) (u w : Telemetry C E) (before : Closes none u w) where
    closed-Leaves :
        (span : Option ℕ) (v : Telemetry C E)
        → Closes span w v
        → Leaves span u os (record { telemetry = v; promises = ps })
    closed-Leaves span v closes =
        let (same, told) = then-Closes span u w v before closes in
        record { owners = os; holds = holds; same = same; told = λ i. omega (arith, told i) }

    awaited-Leaves :
        (span : Option ℕ) (react : Reaction (Telemetry C E) E A)
        → Owns span react
        → Leaves span u os (record { telemetry = w; promises = some react ∷ ps })
    awaited-Leaves span react owns = record {
      owners = some span ∷ os;
      holds = awaited span react ps os owns holds;
      same = before.0;
      told = λ i. omega (arith, before.1 i);
    }

    record_on-Leaves :
        (job : Text) (t : ℕ) (b : BodyEnd E A)
        → Leaves none u os (keep_promise ps (record_on job t (ending_of b, w)))
    record_on-Leaves job t (raises e) = closed-Leaves none _ (record_run-Closes job t failure w)
    record_on-Leaves job t (gives x) = closed-Leaves none _ (record_run-Closes job t success w)
    record_on-Leaves job t awaits = awaited-Leaves none _ (measuring-Owns job t)

    end_on-Leaves :
        (job : Text) (t n : ℕ) (b : BodyEnd E A)
        → Leaves (some n) u os (keep_promise ps (end_on n (record_on job t (ending_of b, w))))
    end_on-Leaves job t n (raises e) =
        closed-Leaves (some n) _ (end_settled-Owns {A = A} job t n (err e) w)
    end_on-Leaves job t n (gives x) =
        closed-Leaves (some n) _ (end_settled-Owns {A = A} job t n (ok x) w)
    end_on-Leaves job t n awaits = awaited-Leaves (some n) _ (end_settled-Owns job t n)

  -- The owners behind the settling of a promise.
  settled_owners :
      (k : ℕ) (r : Result E A) (ps : List (Option (Reaction (Telemetry C E) E A)))
      (os : List (Option (Option ℕ))) (w : Telemetry C E)
      → Holds ps os
      → (os' : List (Option (Option ℕ))) × Holds (settle_promise k r ps w).0 os'
        × ((settle_promise k r ps w).1.spans ≡ w.spans)
        × ((i : ℕ)
            → ends i (settle_promise k r ps w).1.log + owned i os' ≡ ends i w.log + owned i os)
  settled_owners k r _ _ w nothing = ([], nothing, refl, λ i. refl)
  settled_owners zero r _ _ w (over ps os holds) = (none ∷ os, over ps os holds, refl, λ i. refl)
  settled_owners zero r _ _ w (awaited span react ps os owns holds) =
      let (same, closes) = owns r w in
      (none ∷ os, over ps os holds, same, λ i. omega (arith, closes i))
  settled_owners (suc k) r _ _ w (over ps os holds) =
      let (os', holds', same, told) = settled_owners k r ps os w holds in
      (none ∷ os', over _ os' holds', same, told)
  settled_owners (suc k) r _ _ w (awaited span react ps os owns holds) =
      let (os', holds', same, told) = settled_owners k r ps os w holds in
      (some span ∷ os', awaited span react _ os' owns holds', same, λ i. omega (arith, told i))

  -- Every span that was started is ended or will be, once.
  record IsTidy (s : Schedule C E A) : Type 0 where
    owners : List (Option (Option ℕ))
    holds : Holds s.promises owners
    once :
        (i : ℕ)
        → ends i s.telemetry.log + owned i owners ≡ (if ltb i s.telemetry.spans then 1 else 0)

  Leaves-IsTidy :
      (span : Option ℕ) (u : Telemetry C E) (os : List (Option (Option ℕ))) (s : Schedule C E A)
      → ((i : ℕ) → ends i u.log + owned i os + hits i span ≡ (if ltb i u.spans then 1 else 0))
      → Leaves span u os s
      → IsTidy s
  Leaves-IsTidy span u os s before leaves = record {
    owners = leaves.owners;
    holds = leaves.holds;
    once = λ i. rw (leaves.same) (leaves.told i ∙ before i);
  }

  module _ (api : ContextApi C) where
    run_job-IsTidy :
        (options : JobRunOptions) (active : C) (b : Body E A) (s : Schedule C E A)
        → IsTidy s
        → IsTidy (handle api (ran options active b) s)
    unfolding run_job with_entry_point_span with_span end_on_settle record_on_settle
    run_job-IsTidy options active b s tidy =
        let n = s.telemetry.spans in
        let opened : Telemetry C E = record s.telemetry {
          spans = n + 1;
          log =
              span_started options.tracer (or_else options.span_name options.name) internal true
                active
              ∷ s.telemetry.log;
        } in
        elim (Bool-cases options.suppress_trace) [
          | inl hidden ↦ rw hidden (
              Leaves-IsTidy none s.telemetry tidy.owners _ (λ i. omega (arith, tidy.once i))
                (record_on-Leaves s.promises tidy.owners tidy.holds s.telemetry _
                  (record_items-Closes options.name none b.items s.telemetry) options.name
                  s.telemetry.clock b.ending))
          | inr traced ↦ rw traced (
              Leaves-IsTidy (some n) opened tidy.owners _
                (λ i. omega (arith, tidy.once i, one_more i n))
                (end_on-Leaves s.promises tidy.owners tidy.holds opened _
                  (record_items-Closes options.name (some n) b.items opened) options.name
                  s.telemetry.clock n b.ending))
        ]

    quiet-IsTidy :
        (s : Schedule C E A) (w : Telemetry C E)
        → Closes none s.telemetry w
        → IsTidy s
        → IsTidy (record s { telemetry = w })
    quiet-IsTidy s w (same, quiet) tidy = record {
      owners = tidy.owners;
      holds = tidy.holds;
      once = λ i. rw same (omega (arith, quiet i, tidy.once i));
    }

    handle-IsTidy :
        (event : JobEvent C E A) (s : Schedule C E A) → IsTidy s → IsTidy (handle api event s)
    handle-IsTidy (registered p) s tidy = quiet-IsTidy s _ (refl, λ i. omega arith) tidy
    handle-IsTidy (elapsed n) s tidy = quiet-IsTidy s _ (refl, λ i. omega arith) tidy
    handle-IsTidy (ran options active b) s tidy = run_job-IsTidy options active b s tidy
    handle-IsTidy (handled job outcome n) s tidy =
        quiet-IsTidy s _ (record_item-Closes job outcome n s.telemetry) tidy
    handle-IsTidy (settled k r) s tidy =
        let (os, holds, same, told) =
          settled_owners k r s.promises tidy.owners s.telemetry tidy.holds in
        record { owners = os; holds = holds; once = λ i. rw same (told i ∙ tidy.once i) }
    handle-IsTidy (skipped job reason) s tidy =
        quiet-IsTidy s _ (record_job_skip-Closes job reason s.telemetry) tidy

    handle_events-IsTidy :
        (events : List (JobEvent C E A)) (s : Schedule C E A)
        → IsTidy s
        → IsTidy (handle_events api events s)
    unfolding handle_events
    handle_events-IsTidy [] s tidy = tidy
    handle_events-IsTidy (event ∷ events) s tidy =
        handle_events-IsTidy events _ (handle-IsTidy event s tidy)

  abbrev pub is_settled : Option (Reaction (Telemetry C E) E A) → Bool
  is_settled none = true
  is_settled (some react) = false

  settled-owned :
      (ps : List (Option (Reaction (Telemetry C E) E A))) (os : List (Option (Option ℕ))) (i : ℕ)
      → Holds ps os
      → every (λ p. is_settled p) ps ≡ true
      → owned i os ≡ 0
  settled-owned _ _ i nothing all = refl
  settled-owned _ _ i (over ps os holds) all = settled-owned ps os i holds all
  settled-owned _ _ i (awaited span react ps os owns holds) all = absurd (ground (arith, all))

-- Whatever jobs run and however their runs overlap: a span that was started is ended at most once,
-- and exactly once when every promise has settled; one that was not started is not ended.
pub handle_events-ends :
    {C E A : Type 0} (api : ContextApi C) (events : List (JobEvent C E A)) (i : ℕ)
    → let s = handle_events api events idle in
      let started : ℕ = if ltb i s.telemetry.spans then 1 else 0 in
      ((if every (λ p. is_settled p) s.promises then started else 0) ≤ ends i s.telemetry.log)
      × (ends i s.telemetry.log ≤ started)
handle_events-ends api events i =
    let s = handle_events api events idle in
    let first : IsTidy idle = record { owners = []; holds = nothing; once = λ j. ground arith } in
    let tidy = handle_events-IsTidy api events idle first in
    elim (Bool-cases (every (λ p. is_settled p) s.promises)) [
      | inl all ↦ rw all (
        omega (arith, tidy.once i, settled-owned _ _ i tidy.holds all),
        omega (arith, tidy.once i),
      )
      | inr some_left ↦ rw some_left (omega arith, omega (arith, tidy.once i))
    ]
