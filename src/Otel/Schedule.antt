-- ===== src/Otel/Schedule.antt =====
-- packages/otel/src/jobTelemetry.ts: jobs whose runs overlap, as a machine over what happens in the process.
use iot_miniservers.Prelude.{ℕ, ◌+◌, zero, suc, Option, none, some, List, [], ◌∷◌, Text}
use iot_miniservers.Prelude.Result.{Result}
use iot_miniservers.Otel.{Telemetry, ContextApi}
use iot_miniservers.Otel.Spans.{Ending, threw, returned, promised, Reaction, TracedCall}
use iot_miniservers.Otel.Jobs.{
  JobOutcome, JobSkipReason, JobRunOptions, JobRunContext, record_item, record_job_skip, run_job,
}

-- What the function of a job does before it returns: the items that it records, how long it takes,
-- and whether it throws, returns, or has something to await.
pub data BodyEnd (E A : Type 0) : Type 0 where
  raises : E → BodyEnd E A
  gives : A → BodyEnd E A
  awaits : BodyEnd E A

pub record Body (E A : Type 0) : Type 0 where
  pub items : List (JobOutcome × ℕ)
  pub took : ℕ
  pub ending : BodyEnd E A

pub data JobEvent (C E A : Type 0) : Type 0 where
  registered : ℕ → JobEvent C E A
  elapsed : ℕ → JobEvent C E A
  ran : JobRunOptions → C → Body E A → JobEvent C E A
  handled : Text → JobOutcome → ℕ → JobEvent C E A
  settled : ℕ → Result E A → JobEvent C E A
  skipped : Text → JobSkipReason → JobEvent C E A

-- The promises that jobs have returned, the newest first; `none` once one has settled.
pub record Schedule (C E A : Type 0) : Type 0 where
  pub telemetry : Telemetry C E
  pub promises : List (Option (Reaction (Telemetry C E) E A))

module _ {C E : Type 0} where
  abbrev pub record_items :
      JobRunContext C E → List (JobOutcome × ℕ) → Telemetry C E → Telemetry C E
  record_items run [] w = w
  record_items run ((outcome, count) ∷ items) w =
      record_items run items (run.record_item outcome count w)

module _ {C E A : Type 0} where
  abbrev pub ending_of : BodyEnd E A → Ending (Telemetry C E) E A
  ending_of (raises e) = threw e
  ending_of (gives a) = returned a
  ending_of awaits = promised (λ r w. (r, w))

  abbrev pub body_of : Body E A → C → JobRunContext C E → TracedCall C E A
  body_of b within run w =
      let v = record_items run b.items w in
      (ending_of b.ending, record v { clock = v.clock + b.took })

  abbrev pub keep_promise :
      List (Option (Reaction (Telemetry C E) E A))
      → Ending (Telemetry C E) E A × Telemetry C E
      → Schedule C E A
  keep_promise promises (threw e, w) = record { telemetry = w; promises = promises }
  keep_promise promises (returned a, w) = record { telemetry = w; promises = promises }
  keep_promise promises (promised react, w) = record {
    telemetry = w;
    promises = some react ∷ promises;
  }

  abbrev pub settle_promise :
      ℕ
      → Result E A
      → List (Option (Reaction (Telemetry C E) E A))
      → Telemetry C E
      → List (Option (Reaction (Telemetry C E) E A)) × Telemetry C E
  settle_promise k r [] w = ([], w)
  settle_promise zero r (none ∷ promises) w = (none ∷ promises, w)
  settle_promise zero r (some react ∷ promises) w = (none ∷ promises, (react r w).1)
  settle_promise (suc k) r (promise ∷ promises) w =
      let (promises', w') = settle_promise k r promises w in (promise ∷ promises', w')

  module _ (api : ContextApi C) where
    abbrev pub handle : JobEvent C E A → Schedule C E A → Schedule C E A
    handle (registered provider) s = record s {
      telemetry = record s.telemetry { provider = provider };
    }
    handle (elapsed n) s = record s {
      telemetry = record s.telemetry { clock = s.telemetry.clock + n };
    }
    handle (ran options active b) s =
        keep_promise s.promises (run_job api options (body_of b) active s.telemetry)
    handle (handled name outcome count) s = record s {
      telemetry = record_item name outcome count s.telemetry;
    }
    handle (settled k r) s =
        let (promises, w) = settle_promise k r s.promises s.telemetry in
        record { telemetry = w; promises = promises }
    handle (skipped name reason) s = record s {
      telemetry = record_job_skip name reason s.telemetry;
    }

    unfoldable pub handle_events : List (JobEvent C E A) → Schedule C E A → Schedule C E A
    handle_events [] s = s
    handle_events (event ∷ events) s = handle_events events (handle event s)
