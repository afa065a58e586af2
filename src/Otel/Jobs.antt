-- ===== src/Otel/Jobs.antt =====
-- packages/otel/src/jobTelemetry.ts. The clock does not run backwards.
use iot_miniservers.Prelude.{
  ℕ, ◌-◌, Bool, false, Option, none, some, [], ◌∷◌, Text, text, or_else, nat_eq,
}
use iot_miniservers.Prelude.Dict
use iot_miniservers.Prelude.Result.{Result, ok, err}
use iot_miniservers.Otel.{JobInstruments, measured, Telemetry, ContextApi}
use iot_miniservers.Otel.Spans.{
  Ending, threw, returned, promised, TracedCall, put, with_entry_point_span,
}

pub data JobOutcome : Type 0 where
  success : JobOutcome
  failure : JobOutcome

pub data JobSkipReason : Type 0 where
  nothing_due : JobSkipReason
  overrun : JobSkipReason

abbrev pub outcome_value : JobOutcome → Text
outcome_value success = text "success"
outcome_value failure = text "failure"

abbrev pub reason_value : JobSkipReason → Text
reason_value nothing_due = text "nothing_due"
reason_value overrun = text "overrun"

pub record JobRunOptions : Type 0 where
  pub name : Text
  pub tracer : Text
  pub span_name : Option Text
  pub suppress_trace : Bool

-- `createHistogram` and `createCounter` of the meter of a provider.
abbrev pub instruments_of : ℕ → JobInstruments
instruments_of provider = record {
  duration = record { provider = provider; meter = text "job"; name = text "job.run.duration" };
  skips = record { provider = provider; meter = text "job"; name = text "job.run.skips" };
  items = record { provider = provider; meter = text "job"; name = text "job.run.items" };
}

module _ {C E : Type 0} where
  abbrev pub kept_or_built : Option JobInstruments → Telemetry C E → JobInstruments × Telemetry C E
  kept_or_built (some cached) w = (cached, w)
  kept_or_built none w =
      let created = instruments_of w.provider in
      (created, record w { instruments = Dict.insert w.provider created w.instruments })

  unfoldable pub job_instruments : Telemetry C E → JobInstruments × Telemetry C E
  job_instruments w = kept_or_built (Dict.get w.provider w.instruments) w

  unfoldable pub record_run : Text → ℕ → JobOutcome → Telemetry C E → Telemetry C E
  record_run name started_at outcome w =
      let (instruments, v) = job_instruments w in
      put
        (measured (record {
          instrument = instruments.duration;
          amount = v.clock - started_at;
          attributes =
              (text "job.name", name) ∷ (text "job.run.outcome", outcome_value outcome) ∷ [];
        }))
        v

  unfoldable pub record_item : Text → JobOutcome → ℕ → Telemetry C E → Telemetry C E
  record_item name outcome count w =
      let (instruments, v) = job_instruments w in
      put
        (measured (record {
          instrument = instruments.items;
          amount = count;
          attributes =
              (text "job.name", name) ∷ (text "job.item.outcome", outcome_value outcome) ∷ [];
        }))
        v

  unfoldable pub record_job_skip : Text → JobSkipReason → Telemetry C E → Telemetry C E
  record_job_skip name reason w =
      let (instruments, v) = job_instruments w in
      put
        (measured (record {
          instrument = instruments.skips;
          amount = 1;
          attributes = (text "job.name", name) ∷ (text "job.skip.reason", reason_value reason) ∷ [];
        }))
        v

-- The handle that a job gets.
pub record JobRunContext (C E : Type 0) : Type 0 where
  pub span : Option ℕ
  pub record_item : JobOutcome → ℕ → Telemetry C E → Telemetry C E

module _ {C E A : Type 0} where
  abbrev pub record_settled : Text → ℕ → Result E A × Telemetry C E → Result E A × Telemetry C E
  record_settled name started_at (ok a, w) = (ok a, record_run name started_at success w)
  record_settled name started_at (err e, w) = (err e, record_run name started_at failure w)

  abbrev pub record_on :
      Text
      → ℕ
      → Ending (Telemetry C E) E A × Telemetry C E
      → Ending (Telemetry C E) E A × Telemetry C E
  record_on name started_at (threw e, w) = (threw e, record_run name started_at failure w)
  record_on name started_at (returned a, w) = (returned a, record_run name started_at success w)
  record_on name started_at (promised react, w) =
      (promised (λ r v. record_settled name started_at (react r v)), w)

  unfoldable pub record_on_settle :
      Text → ℕ → Option ℕ → (JobRunContext C E → TracedCall C E A) → TracedCall C E A
  record_on_settle name started_at span fn w =
      record_on name started_at (fn (record { span = span; record_item = record_item name }) w)

  unfoldable pub run_job :
      ContextApi C
      → JobRunOptions
      → (C → JobRunContext C E → TracedCall C E A)
      → C
      → TracedCall C E A
  run_job api options fn active w =
      let started_at = w.clock in
      with_entry_point_span api
        (record {
          name = or_else options.span_name options.name;
          tracer = options.tracer;
          kind = none;
          parent = none;
          root = false;
          suppress = options.suppress_trace;
        })
        (λ within span. record_on_settle options.name started_at span (fn within)) active w
