-- ===== src/Otel/Instruments.antt =====
-- packages/otel/src/jobTelemetry.ts: the instruments that are kept, and the
-- provider that a measure goes to.
use iot_miniservers.Prelude.{
  ℕ, ◌-◌, ◌≡◌, refl, Bool-cases, Option, none, some, List, [], ◌∷◌, Text, arith, nat_eq, ◌==◌, inl,
  inr,
}
use iot_miniservers.Prelude.Dict
use iot_miniservers.Prelude.Dict.{get-insert}
use iot_miniservers.Otel.{
  Instrument, JobInstruments, Measure, ApiCall, span_started, exception_recorded, status_failed,
  span_ended, measured, Telemetry,
}
use iot_miniservers.Otel.Spans.{put}
use iot_miniservers.Otel.Jobs.{
  JobOutcome, JobSkipReason, instruments_of, kept_or_built, job_instruments, record_run,
  record_item, record_job_skip,
}
use iot_miniservers.Otel.Ledger.{Account, charge_run, charge_item, charge_skip}

module _ {C E : Type 0} where
  abbrev pub measures_of : List (ApiCall C E) → List Measure
  measures_of [] = []
  measures_of (measured m ∷ log) = m ∷ measures_of log
  measures_of (span_started t n k r c ∷ log) = measures_of log
  measures_of (exception_recorded s e ∷ log) = measures_of log
  measures_of (status_failed s e ∷ log) = measures_of log
  measures_of (span_ended s ∷ log) = measures_of log

  abbrev pub account_of : Telemetry C E → Account
  account_of w = record { provider = w.provider; clock = w.clock; measures = measures_of w.log }

  -- The instruments that are kept for a provider are its own.
  abbrev pub IsCached : Telemetry C E → Type 0
  IsCached w =
      (p : ℕ) (i : JobInstruments) → Dict.get p w.instruments ≡ some i → i ≡ instruments_of p

  abbrev IsOwn : Telemetry C E → JobInstruments × Telemetry C E → Type 0
  IsOwn w (i, v) =
      (i ≡ instruments_of w.provider)
      × (v.provider ≡ w.provider)
      × (v.clock ≡ w.clock)
      × (v.log ≡ w.log)
      × IsCached v

  kept_or_built-IsOwn :
      (found : Option JobInstruments) (w : Telemetry C E)
      → Dict.get w.provider w.instruments ≡ found
      → IsCached w
      → IsOwn w (kept_or_built found w)
  kept_or_built-IsOwn (some i) w h cached = (cached w.provider i h, refl, refl, refl, cached)
  kept_or_built-IsOwn none w h cached = (
    refl,
    refl,
    refl,
    refl,
    λ p i g. elim (Bool-cases (w.provider == p)) [
      | inl same ↦ ground (
        arith,
        nat_eq.beq_iff w.provider p,
        get-insert w.provider p (instruments_of w.provider) w.instruments,
        g,
        same,
      )
      | inr other ↦ cached p i (
          ground
            (arith, get-insert w.provider p (instruments_of w.provider) w.instruments, g, other))
    ],
  )

  job_instruments-IsOwn : (w : Telemetry C E) → IsCached w → IsOwn w (job_instruments w)
  unfolding job_instruments
  job_instruments-IsOwn w cached = kept_or_built-IsOwn _ w refl cached

  -- The account of a state whose instruments are right.
  abbrev pub Shows : Telemetry C E → Account → Type 0
  Shows w a = (account_of w ≡ a) × IsCached w

  -- A measure with some instrument, whose amount may depend on the clock.
  measured-Shows :
      (pick : JobInstruments → Instrument) (amount : ℕ → ℕ) (attributes : List (Text × Text))
      (w : Telemetry C E) (a : Account)
      → Shows w a
      → Shows
          (let (i, v) = job_instruments w in
            put
              (measured
                (record { instrument = pick i; amount = amount v.clock; attributes = attributes }))
              v)
          (record a {
            measures =
                record {
                  instrument = pick (instruments_of a.provider);
                  amount = amount a.clock;
                  attributes = attributes;
                }
                ∷ a.measures;
          })
  measured-Shows pick amount attributes w a (same, cached) =
      let (own, p, c, l, cached') = job_instruments-IsOwn w cached in
      (rw (← same, own, p, c, l) refl, cached')

  pub record_run-Shows :
      (job : Text) (t : ℕ) (outcome : JobOutcome) (w : Telemetry C E) (a : Account)
      → Shows w a
      → Shows (record_run job t outcome w) (charge_run job t outcome a)
  unfolding record_run
  record_run-Shows job t outcome w a shows =
      measured-Shows (λ i. i.duration) (λ now. now - t) _ w a shows

  pub record_item-Shows :
      (job : Text) (outcome : JobOutcome) (n : ℕ) (w : Telemetry C E) (a : Account)
      → Shows w a
      → Shows (record_item job outcome n w) (charge_item job outcome n a)
  unfolding record_item
  record_item-Shows job outcome n w a shows = measured-Shows (λ i. i.items) (λ now. n) _ w a shows

  pub record_job_skip-Shows :
      (job : Text) (reason : JobSkipReason) (w : Telemetry C E) (a : Account)
      → Shows w a
      → Shows (record_job_skip job reason w) (charge_skip job reason a)
  unfolding record_job_skip
  record_job_skip-Shows job reason w a shows = measured-Shows (λ i. i.skips) (λ now. 1) _ w a shows
