-- ===== src/Otel.antt =====
-- packages/otel/src: the spans and the measures of the work that a process starts by itself. The OpenTelemetry
-- API is not modelled: what the code asks of it is written down in a log, the newest call first. A
-- span is the number of the call that started it; the contexts and what the API makes of them are
-- parameters. Errors are `Error`s already.
pub mod Spans
pub mod Jobs
pub mod Schedule
pub mod Ledger
pub mod Instruments
pub mod Accounting
pub mod Owners
pub mod Closing
use iot_miniservers.Prelude.{ℕ, Bool, List, [], Text, Option}
use iot_miniservers.Prelude.Dict.{Dict}

pub data SpanKind : Type 0 where
  internal : SpanKind
  consumer : SpanKind
  client : SpanKind

-- An instrument belongs to the provider that was registered when it was created.
pub record Instrument : Type 0 where
  pub provider : ℕ
  pub meter : Text
  pub name : Text

pub record JobInstruments : Type 0 where
  pub duration : Instrument
  pub skips : Instrument
  pub items : Instrument

-- A number with its attributes; a duration is in thousandths of its unit.
pub record Measure : Type 0 where
  pub instrument : Instrument
  pub amount : ℕ
  pub attributes : List (Text × Text)

pub data ApiCall (C E : Type 0) : Type 0 where
  span_started : Text → Text → SpanKind → Bool → C → ApiCall C E
  exception_recorded : ℕ → E → ApiCall C E
  status_failed : ℕ → E → ApiCall C E
  span_ended : ℕ → ApiCall C E
  measured : Measure → ApiCall C E

-- `provider` and `clock` are what the API and `performance.now()` answer; `instruments` is
-- `instrumentsByProvider`, and `spans` counts the spans that were started.
pub record Telemetry (C E : Type 0) : Type 0 where
  pub provider : ℕ
  pub clock : ℕ
  pub instruments : Dict ℕ JobInstruments
  pub spans : ℕ
  pub log : List (ApiCall C E)

-- What the API does with a context: `suppressTracing`, `trace.deleteSpan`, and the context that a
-- span is active in.
pub record ContextApi (C : Type 0) : Type 0 where
  pub suppress_tracing : C → C
  pub delete_span : C → C
  pub set_span : C → ℕ → C
