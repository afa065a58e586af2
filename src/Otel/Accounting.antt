-- ===== src/Otel/Accounting.antt =====
-- packages/otel/src/jobTelemetry.ts: what a process measures of its jobs, against the ledger.
use iot_miniservers.Prelude.{
  ℕ, ◌+◌, zero, suc, ◌≡◌, refl, ap, true, or_else, Bool-cases, Option, none, some, List, [], ◌∷◌,
  Text, arith, inl, inr,
}
use mathlib.Core.Path.{subst}
use iot_miniservers.Prelude.Dict
use iot_miniservers.Prelude.Result.{Result, ok, err}
use iot_miniservers.Otel.{internal, span_started, Telemetry, ContextApi}
use iot_miniservers.Otel.Spans.{
  Reaction, end_on, end_settled, with_entry_point_span, with_span, end_on_settle, record_span_error,
}
use iot_miniservers.Otel.Jobs.{
  JobOutcome, success, failure, JobRunOptions, record_item, record_on, record_settled,
  record_on_settle, run_job,
}
use iot_miniservers.Otel.Schedule.{
  BodyEnd, raises, gives, awaits, Body, JobEvent, registered, elapsed, ran, handled, settled,
  skipped, Schedule, record_items, ending_of, body_of, keep_promise, settle_promise, handle,
  handle_events,
}
use iot_miniservers.Otel.Ledger.{
  Account, Ledger, charge_run, charge_items, outcome_of, book_end, close, book, book_all,
}
use iot_miniservers.Otel.Instruments.{
  account_of, Shows, record_run-Shows, record_item-Shows, record_job_skip-Shows,
}

module _ {C E : Type 0} where
  later-Shows :
      (n : ℕ) (w : Telemetry C E) (a : Account)
      → Shows w a
      → Shows (record w { clock = w.clock + n }) (record a { clock = a.clock + n })
  later-Shows n w a (same, cached) =
      (ap {A = Account} (λ x. record x { clock = x.clock + n }) same, cached)

  record_items-Shows :
      (job : Text) (span : Option ℕ) (items : List (JobOutcome × ℕ)) (w : Telemetry C E)
      (a : Account)
      → Shows w a
      → Shows
          (record_items (record { span = span; record_item = record_item job }) items w)
          (charge_items job items a)
  record_items-Shows job span [] w a shows = shows
  record_items-Shows job span ((outcome, n) ∷ items) w a shows =
      record_items-Shows job span items _ _ (record_item-Shows job outcome n w a shows)

abbrev ran_ledger : {E A : Type 0} → Text → Body E A → Ledger → Ledger
ran_ledger job b l =
    let a = charge_items job b.items l.account in
    record l { account = record a { clock = a.clock + b.took } }

module _ {C E A : Type 0} where
  -- A promise settles with what it was given, and is measured then.
  abbrev Tells : Text → ℕ → Reaction (Telemetry C E) E A → Type 0
  Tells job t react =
      (r : Result E A) (w : Telemetry C E) (a : Account)
      → Shows w a
      → ((react r w).0 ≡ r) × Shows (react r w).1 (charge_run job t (outcome_of r) a)

  abbrev pub measuring : Text → ℕ → Reaction (Telemetry C E) E A
  measuring job t r w = record_settled job t (r, w)

  measuring-Tells : (job : Text) (t : ℕ) → Tells job t (measuring job t)
  measuring-Tells job t (ok x) w a shows = (refl, record_run-Shows job t success w a shows)
  measuring-Tells job t (err e) w a shows = (refl, record_run-Shows job t failure w a shows)

  end_settled-Tells :
      (job : Text) (t span : ℕ) → Tells job t (λ r w. end_settled span (measuring job t r w))
  unfolding record_span_error
  end_settled-Tells job t span (ok x) w a shows = (refl, record_run-Shows job t success w a shows)
  end_settled-Tells job t span (err e) w a shows = (refl, record_run-Shows job t failure w a shows)

  body_of-Shows :
      (job : Text) (span : Option ℕ) (b : Body E A) (within : C) (w : Telemetry C E) (a : Account)
      → Shows w a
      → Shows
          (body_of b within (record { span = span; record_item = record_item job }) w).1
          (let a' = charge_items job b.items a in record a' { clock = a'.clock + b.took })
  body_of-Shows job span b within w a shows =
      later-Shows b.took
        (record_items (record { span = span; record_item = record_item job }) b.items w)
        (charge_items job b.items a) (record_items-Shows job span b.items w a shows)

  data Follows
      : List (Option (Reaction (Telemetry C E) E A)) → List (Option (Text × ℕ)) → Type 0 where
    nothing : Follows [] []
    over :
        (ps : List (Option (Reaction (Telemetry C E) E A))) (js : List (Option (Text × ℕ)))
        → Follows ps js
        → Follows (none ∷ ps) (none ∷ js)
    awaited :
        (job : Text) (t : ℕ) (react : Reaction (Telemetry C E) E A)
        (ps : List (Option (Reaction (Telemetry C E) E A))) (js : List (Option (Text × ℕ)))
        → Tells job t react
        → Follows ps js
        → Follows (some react ∷ ps) (some (job, t) ∷ js)

  abbrev Matches : Schedule C E A → Ledger → Type 0
  Matches s l = Shows s.telemetry l.account × Follows s.promises l.pending

  module _ (job : Text) (t : ℕ) (ps : List (Option (Reaction (Telemetry C E) E A)))
      (js : List (Option (Text × ℕ))) (follows : Follows ps js) (w : Telemetry C E) (a : Account)
      (shows : Shows w a) where
    abbrev Booked : BodyEnd E A → Schedule C E A → Type 0
    Booked b s = Matches s (book_end job t b (record { account = a; pending = js }))

    record_on-Matches :
        (b : BodyEnd E A) → Booked b (keep_promise ps (record_on job t (ending_of b, w)))
    record_on-Matches (raises e) = (record_run-Shows job t failure w a shows, follows)
    record_on-Matches (gives x) = (record_run-Shows job t success w a shows, follows)
    record_on-Matches awaits = (shows, awaited job t _ ps js (measuring-Tells job t) follows)

    end_on-Matches :
        (span : ℕ) (b : BodyEnd E A)
        → Booked b (keep_promise ps (end_on span (record_on job t (ending_of b, w))))
    unfolding record_span_error
    end_on-Matches span (raises e) = (record_run-Shows job t failure w a shows, follows)
    end_on-Matches span (gives x) = (record_run-Shows job t success w a shows, follows)
    end_on-Matches span awaits =
        (shows, awaited job t _ ps js (end_settled-Tells job t span) follows)

  settle_promise-Matches :
      (k : ℕ) (r : Result E A) (ps : List (Option (Reaction (Telemetry C E) E A)))
      (js : List (Option (Text × ℕ))) (w : Telemetry C E) (a : Account)
      → Follows ps js
      → Shows w a
      → Follows (settle_promise k r ps w).0 (close k (outcome_of r) js a).0
        × Shows (settle_promise k r ps w).1 (close k (outcome_of r) js a).1
  settle_promise-Matches k r _ _ w a nothing shows = (nothing, shows)
  settle_promise-Matches zero r _ _ w a (over ps js follows) shows = (over ps js follows, shows)
  settle_promise-Matches zero r _ _ w a (awaited job t react ps js tells follows) shows =
      (over ps js follows, (tells r w a shows).1)
  settle_promise-Matches (suc k) r _ _ w a (over ps js follows) shows =
      let (follows', shows') = settle_promise-Matches k r ps js w a follows shows in
      (over _ _ follows', shows')
  settle_promise-Matches (suc k) r _ _ w a (awaited job t react ps js tells follows) shows =
      let (follows', shows') = settle_promise-Matches k r ps js w a follows shows in
      (awaited job t react _ _ tells follows', shows')

  module _ (api : ContextApi C) where
    run_job-Matches :
        (options : JobRunOptions) (active : C) (b : Body E A) (s : Schedule C E A) (l : Ledger)
        → Matches s l
        → Matches (handle api (ran options active b) s) (book (ran options active b) l)
    unfolding run_job with_entry_point_span with_span end_on_settle record_on_settle
    run_job-Matches options active b s l (shows, follows) =
        let began : s.telemetry.clock ≡ l.account.clock = ap (λ x. x.clock) shows.0 in
        let Booked_at : ℕ → Type 0 = λ t.
          Matches (handle api (ran options active b) s)
            (book_end options.name t b.ending (ran_ledger options.name b l)) in
        let opened : Telemetry C E = record s.telemetry {
          spans = s.telemetry.spans + 1;
          log =
              span_started options.tracer (or_else options.span_name options.name) internal true
                active
              ∷ s.telemetry.log;
        } in
        subst Booked_at began (elim (Bool-cases options.suppress_trace) [
          | inl hidden ↦ rw hidden (
              record_on-Matches options.name s.telemetry.clock s.promises l.pending follows _ _
                (body_of-Shows options.name none b active s.telemetry l.account shows) b.ending)
          | inr traced ↦ rw traced (
              end_on-Matches options.name s.telemetry.clock s.promises l.pending follows _ _
                (body_of-Shows options.name (some s.telemetry.spans) b active opened l.account
                  shows)
                s.telemetry.spans b.ending)
        ])

    handle-Matches :
        (event : JobEvent C E A) (s : Schedule C E A) (l : Ledger)
        → Matches s l
        → Matches (handle api event s) (book event l)
    handle-Matches (registered p) s l ((same, cached), follows) =
        ((ap {A = Account} (λ x. record x { provider = p }) same, cached), follows)
    handle-Matches (elapsed n) s l (shows, follows) =
        (later-Shows n s.telemetry l.account shows, follows)
    handle-Matches (ran options active b) s l matches = run_job-Matches options active b s l matches
    handle-Matches (handled job outcome n) s l (shows, follows) =
        (record_item-Shows job outcome n s.telemetry l.account shows, follows)
    handle-Matches (settled k r) s l (shows, follows) =
        let (follows', shows') =
          settle_promise-Matches k r s.promises l.pending s.telemetry l.account follows shows in
        (shows', follows')
    handle-Matches (skipped job reason) s l (shows, follows) =
        (record_job_skip-Shows job reason s.telemetry l.account shows, follows)

    handle_events-Matches :
        (events : List (JobEvent C E A)) (s : Schedule C E A) (l : Ledger)
        → Matches s l
        → Matches (handle_events api events s) (book_all events l)
    unfolding handle_events book_all
    handle_events-Matches [] s l matches = matches
    handle_events-Matches (event ∷ events) s l matches =
        handle_events-Matches events _ _ (handle-Matches event s l matches)

abbrev pub idle : {C E A : Type 0} → Schedule C E A
idle = record {
  telemetry = record { provider = 0; clock = 0; instruments = []; spans = 0; log = [] };
  promises = [];
}

abbrev pub blank : Ledger
blank = record { account = record { provider = 0; clock = 0; measures = [] }; pending = [] }

-- Whatever jobs run, however their runs overlap, and whenever a provider is registered: the process
-- measures what the ledger tells, in its order, each measure with the provider of its moment. So a run
-- counts once, when it ends, with its outcome, whether it is traced or not.
pub handle_events-measures :
    {C E A : Type 0} (api : ContextApi C) (events : List (JobEvent C E A))
    → account_of (handle_events api events idle).telemetry ≡ (book_all events blank).account
unfolding Dict.get
handle_events-measures api events =
    (handle_events-Matches api events idle blank
      ((refl, λ p i h. absurd (ground (arith, h))), nothing)).0.0
