-- ===== src/Bridge/Poller/Backoff.antt =====
-- The back-off: how failures are counted, and how long a device is left alone for them.
use iot_miniservers.Prelude.{
  ℕ, zero, suc, ◌+◌, ◌-◌, ◌≤◌, ◌<◌, ◌≡◌, refl, sym, ◌∙◌, Bool, false, not, Option, none, some, List,
  [], ◌∷◌, arith, Text, any, ltb, leb, if◌then◌else◌, or_else, ◌==◌, text_eq,
}
use iot_miniservers.Prelude.Dict
use iot_miniservers.Prelude.Dict.{Dict, get-insert, get-remove, eq_self}
use iot_miniservers.Bridge.Poller.{
  PollTarget, PollingConfig, Poller, due_from, due_devices, skip_remaining, count_down,
  record_failure, max_errors, skip_count,
}

-- A table in which no device is listed twice, as in every JavaScript `Map`.
abbrev pub IsDistinct : {A : Type 0} → Dict Text A → Type 0
IsDistinct [] = Unit {0}
IsDistinct ((k, v) ∷ m) = (Dict.get k m ≡ none) × IsDistinct m

abbrev pub is_due : Text → List PollTarget → Bool
is_due d due = any (λ t. t.device_id == d) due

skip_remaining-count_down :
    (d j : Text) (skips : Dict Text ℕ)
    → skip_remaining d (count_down j skips)
      ≡ (if j == d then skip_remaining d skips - 1 else skip_remaining d skips)
unfolding skip_remaining count_down
skip_remaining-count_down d j skips =
    ground (arith, get-insert j d (or_else (Dict.get j skips) 0 - 1) skips, text_eq.beq_iff j d)

due_from-unsubscribed :
    (d : Text) (subscriptions : Dict Text (List Text)) (skips : Dict Text ℕ)
    → Dict.get d subscriptions ≡ none
    → (skip_remaining d (due_from subscriptions skips).1 ≡ skip_remaining d skips)
      × (is_due d (due_from subscriptions skips).0 ≡ false)
unfolding due_from Dict.get
due_from-unsubscribed d [] skips h = (refl, refl)
due_from-unsubscribed d ((j, set) ∷ m) skips h =
    ground (
      arith,
      h,
      due_from-unsubscribed d m (count_down j skips),
      skip_remaining-count_down d j skips,
    )

-- A subscribed device is due exactly when it has no round to wait; otherwise it waits one less.
due_from-subscribed :
    (d : Text) (set : List Text) (subscriptions : Dict Text (List Text)) (skips : Dict Text ℕ)
    → IsDistinct subscriptions
    → Dict.get d subscriptions ≡ some set
    → (skip_remaining d (due_from subscriptions skips).1 ≡ skip_remaining d skips - 1)
      × (is_due d (due_from subscriptions skips).0 ≡ not (ltb 0 (skip_remaining d skips)))
unfolding due_from Dict.get
due_from-subscribed d set [] skips distinct h = ground (arith, h)
due_from-subscribed d set ((j, own) ∷ m) skips (fresh, distinct) h = ground (
  arith,
  h,
  fresh,
  text_eq.beq_iff j d,
  due_from-subscribed d set m (count_down j skips) distinct,
  due_from-unsubscribed d m (count_down j skips),
  skip_remaining-count_down d j skips,
)

abbrev pub error_count : {V : Type 0} → Text → Poller V → ℕ
error_count d s = or_else (Dict.get d s.error_counts) 0

module _ {V : Type 0} where
  -- Rounds of ticks, as far as the devices that they leave out are concerned.
  abbrev pub rounds : ℕ → Poller V → Poller V
  rounds zero s = s
  rounds (suc n) s = rounds n (due_devices s).1

  abbrev pub fail_times : Option PollingConfig → Text → ℕ → Poller V → Poller V
  fail_times config d zero s = s
  fail_times config d (suc n) s = fail_times config d n (record_failure config d s)

  rounds-due :
      (d : Text) (set : List Text) (n : ℕ) (s : Poller V)
      → IsDistinct s.subscriptions
      → Dict.get d s.subscriptions ≡ some set
      → is_due d (due_devices (rounds n s)).0 ≡ leb (skip_remaining d s.skip_cycles) n
  unfolding due_devices
  rounds-due d set zero s distinct h =
      ground (arith, due_from-subscribed d set s.subscriptions s.skip_cycles distinct h)
  rounds-due d set (suc n) s distinct h = ground (
    arith,
    due_from-subscribed d set s.subscriptions s.skip_cycles distinct h,
    rounds-due d set n (due_devices s).1 distinct h,
  )

  record_failure-count :
      (config : Option PollingConfig) (d : Text) (s : Poller V)
      → suc (error_count d s) < max_errors config
      → (error_count d (record_failure config d s) ≡ suc (error_count d s))
        × ((record_failure config d s).skip_cycles ≡ s.skip_cycles)
        × ((record_failure config d s).subscriptions ≡ s.subscriptions)
  unfolding record_failure
  record_failure-count config d s h =
      ground (arith, h, get-insert d d (error_count d s + 1) s.error_counts, eq_self d)

  record_failure-last :
      (config : Option PollingConfig) (d : Text) (s : Poller V)
      → max_errors config ≤ suc (error_count d s)
      → (error_count d (record_failure config d s) ≡ 0)
        × (skip_remaining d (record_failure config d s).skip_cycles ≡ skip_count config)
        × ((record_failure config d s).subscriptions ≡ s.subscriptions)
  unfolding record_failure skip_remaining
  record_failure-last config d s h = ground (
    arith,
    h,
    get-insert d d (skip_count config) s.skip_cycles,
    get-remove d d s.error_counts,
    eq_self d,
  )

  fail_times-pauses :
      (config : Option PollingConfig) (d : Text) (n : ℕ) (s : Poller V)
      → error_count d s + suc n ≡ max_errors config
      → (error_count d (fail_times config d (suc n) s) ≡ 0)
        × (skip_remaining d (fail_times config d (suc n) s).skip_cycles ≡ skip_count config)
        × ((fail_times config d (suc n) s).subscriptions ≡ s.subscriptions)
  fail_times-pauses config d zero s h = record_failure-last config d s (omega (arith, h))
  fail_times-pauses config d (suc n) s h =
      let (counted, _, kept) = record_failure-count config d s (omega (arith, h)) in
      let (c, k, u) =
        fail_times-pauses config d n (record_failure config d s) (omega (arith, h, counted)) in
      (c, k, u ∙ kept)

  -- As many failures in a row as the configuration tolerates put a subscribed device to sleep: it is
  -- then left out of exactly `errorSkipCycles` rounds, and due in every round behind them until it
  -- is read.
  pub fail_times-rounds :
      (config : Option PollingConfig) (d : Text) (set : List Text) (n rest : ℕ) (s : Poller V)
      → IsDistinct s.subscriptions
      → Dict.get d s.subscriptions ≡ some set
      → error_count d s ≡ 0
      → max_errors config ≡ suc rest
      → is_due d (due_devices (rounds n (fail_times config d (max_errors config) s))).0
        ≡ leb (skip_count config) n
  fail_times-rounds config d set n rest s distinct h fresh limit =
      let (c, k, u) = fail_times-pauses config d rest s (omega (arith, fresh, limit)) in
      rw (limit, sym k)
        (rounds-due d set n (fail_times config d (suc rest) s) (rw u distinct) (rw u h))
