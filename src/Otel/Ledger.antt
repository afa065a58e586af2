-- ===== src/Otel/Ledger.antt =====
-- packages/otel/src/jobTelemetry.ts: what should be measured of jobs, told without spans, sampling, and the cache of
-- instruments. A measure goes to the provider that is registered when it is taken.
use iot_miniservers.Prelude.{ℕ, ◌+◌, ◌-◌, zero, suc, Option, none, some, List, [], ◌∷◌, Text, text}
use iot_miniservers.Prelude.Result.{Result, ok, err}
use iot_miniservers.Otel.{Measure}
use iot_miniservers.Otel.Jobs.{
  JobOutcome, success, failure, outcome_value, JobSkipReason, reason_value,
}
use iot_miniservers.Otel.Schedule.{
  BodyEnd, raises, gives, awaits, JobEvent, registered, elapsed, ran, handled, settled, skipped,
}

pub record Account : Type 0 where
  pub provider : ℕ
  pub clock : ℕ
  pub measures : List Measure

-- `pending` are the runs that have something to await, the newest first, and when they began.
pub record Ledger : Type 0 where
  pub account : Account
  pub pending : List (Option (Text × ℕ))

abbrev pub charge : Text → ℕ → List (Text × Text) → Account → Account
charge metric amount attributes a = record a {
  measures =
      record {
        instrument = record { provider = a.provider; meter = text "job"; name = metric };
        amount = amount;
        attributes = attributes;
      }
      ∷ a.measures;
}

abbrev pub charge_run : Text → ℕ → JobOutcome → Account → Account
charge_run job started_at outcome a =
    charge (text "job.run.duration") (a.clock - started_at)
      ((text "job.name", job) ∷ (text "job.run.outcome", outcome_value outcome) ∷ []) a

abbrev pub charge_item : Text → JobOutcome → ℕ → Account → Account
charge_item job outcome count a =
    charge (text "job.run.items") count
      ((text "job.name", job) ∷ (text "job.item.outcome", outcome_value outcome) ∷ []) a

abbrev pub charge_skip : Text → JobSkipReason → Account → Account
charge_skip job reason a =
    charge (text "job.run.skips") 1
      ((text "job.name", job) ∷ (text "job.skip.reason", reason_value reason) ∷ []) a

abbrev pub charge_items : Text → List (JobOutcome × ℕ) → Account → Account
charge_items job [] a = a
charge_items job ((outcome, count) ∷ items) a =
    charge_items job items (charge_item job outcome count a)

abbrev pub outcome_of : {E A : Type 0} → Result E A → JobOutcome
outcome_of (ok a) = success
outcome_of (err e) = failure

abbrev pub book_end : {E A : Type 0} → Text → ℕ → BodyEnd E A → Ledger → Ledger
book_end job started_at (raises e) l = record l {
  account = charge_run job started_at failure l.account;
}
book_end job started_at (gives a) l = record l {
  account = charge_run job started_at success l.account;
}
book_end job started_at awaits l = record l { pending = some (job, started_at) ∷ l.pending }

abbrev pub close :
    ℕ → JobOutcome → List (Option (Text × ℕ)) → Account → List (Option (Text × ℕ)) × Account
close k outcome [] a = ([], a)
close zero outcome (none ∷ pending) a = (none ∷ pending, a)
close zero outcome (some (job, started_at) ∷ pending) a =
    (none ∷ pending, charge_run job started_at outcome a)
close (suc k) outcome (run ∷ pending) a =
    let (pending', a') = close k outcome pending a in (run ∷ pending', a')

module _ {C E A : Type 0} where
  abbrev pub book : JobEvent C E A → Ledger → Ledger
  book (registered provider) l = record l { account = record l.account { provider = provider } }
  book (elapsed n) l = record l { account = record l.account { clock = l.account.clock + n } }
  book (ran options active b) l =
      let a = charge_items options.name b.items l.account in
      book_end options.name l.account.clock b.ending
        (record l { account = record a { clock = a.clock + b.took } })
  book (handled job outcome count) l = record l {
    account = charge_item job outcome count l.account;
  }
  book (settled k r) l =
      let (pending, a) = close k (outcome_of r) l.pending l.account in
      record { account = a; pending = pending }
  book (skipped job reason) l = record l { account = charge_skip job reason l.account }

  unfoldable pub book_all : List (JobEvent C E A) → Ledger → Ledger
  book_all [] l = l
  book_all (event ∷ events) l = book_all events (book event l)
