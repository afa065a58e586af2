-- ===== src/Tests/Otel.antt =====
-- Jobs of packages/otel at concrete inputs: a traced run that a suppressed one overlaps, before and after a provider is
-- registered.
use iot_miniservers.Prelude.{
  ℕ, ◌+◌, ◌≡◌, ◌≤◌, refl, true, false, some, List, [], ◌∷◌, Text, text, map, every, ltb,
  if◌then◌else◌,
}
use iot_miniservers.Prelude.Dict
use iot_miniservers.Prelude.Result.{ok, err}
use iot_miniservers.Otel.{ContextApi}
use iot_miniservers.Otel.Spans.{
  with_entry_point_span, with_span, end_on_settle, record_span_error, suppressed_context,
}
use iot_miniservers.Otel.Jobs.{
  JobRunOptions, success, failure, nothing_due, job_instruments, record_run, record_item,
  record_job_skip, record_on_settle, run_job,
}
use iot_miniservers.Otel.Schedule.{
  JobEvent, raises, awaits, registered, elapsed, ran, handled, settled, skipped, handle_events,
}
use iot_miniservers.Otel.Ledger.{book_all}
use iot_miniservers.Otel.Instruments.{account_of}
use iot_miniservers.Otel.Accounting.{idle, blank, handle_events-measures}
use iot_miniservers.Otel.Closing.{is_settled, handle_events-ends}
use iot_miniservers.Otel.Owners.{ends}

-- A context is one more than the number of its active span, or zero without one.
abbrev api : ContextApi ℕ
api = record { suppress_tracing = λ c. c; delete_span = λ c. 0; set_span = λ c n. n + 1 }

abbrev poll : JobRunOptions
poll = record {
  name = text "poll";
  tracer = text "poller";
  span_name = some (text "tick");
  suppress_trace = false;
}

abbrev unsampled : JobRunOptions
unsampled = record poll { suppress_trace = true }

abbrev overlapping : List (JobEvent ℕ Text ℕ)
overlapping =
    skipped (text "poll") nothing_due
    ∷ registered 7
    ∷ ran poll 0 (record { items = (success, 1) ∷ []; took = 2; ending = awaits })
    ∷ ran unsampled 3 (record { items = []; took = 1; ending = awaits })
    ∷ elapsed 20
    ∷ settled 1 (err (text "timeout"))
    ∷ handled (text "poll") failure 1
    ∷ settled 0 (ok 4)
    ∷ settled 1 (ok 5)
    ∷ ran poll 0 (record { items = []; took = 5; ending = raises (text "broken") })
    ∷ []

handle_events-measures_example :
    account_of (handle_events api overlapping idle).telemetry ≡ (book_all overlapping blank).account
handle_events-measures_example = handle_events-measures api overlapping

-- One skip, two items, and three runs.
six_measures :
    map (λ m. m.amount) (account_of (handle_events api overlapping idle).telemetry).measures
    ≡ 5 ∷ 21 ∷ 1 ∷ 23 ∷ 1 ∷ 1 ∷ []
unfolding handle_events run_job with_entry_point_span with_span end_on_settle record_span_error
    record_on_settle record_run record_item record_job_skip job_instruments Dict.get Dict.insert
    suppressed_context
six_measures = refl

handle_events-ends_example :
    let s = handle_events api overlapping idle in
    let started : ℕ = if ltb 1 s.telemetry.spans then 1 else 0 in
    ((if every (λ p. is_settled p) s.promises then started else 0) ≤ ends 1 s.telemetry.log)
    × (ends 1 s.telemetry.log ≤ started)
handle_events-ends_example = handle_events-ends api overlapping 1

-- Two spans for three runs, as one is not sampled.
two_spans : (handle_events api overlapping idle).telemetry.spans ≡ 2
unfolding handle_events run_job with_entry_point_span with_span end_on_settle record_span_error
    record_on_settle record_run record_item record_job_skip job_instruments Dict.get Dict.insert
    suppressed_context
two_spans = refl
