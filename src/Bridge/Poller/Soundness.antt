-- ===== src/Bridge/Poller/Soundness.antt =====
-- What every call and every tick keeps of the poller.
use iot_miniservers.Prelude.{
  ℕ, ◌+◌, ◌<◌, ◌≡◌, refl, sym, inl, inr, Bool, true, not, Option, none, some, List, [], ◌∷◌, arith,
  Bool-cases, Text, filter, Eq, ◌==◌, text_eq,
}
use iot_miniservers.Prelude.Dict
use iot_miniservers.Prelude.Dict.{Dict, get-insert, get-remove}
use iot_miniservers.Prelude.Result.{Result, ok, err}
use iot_miniservers.Bridge.Poller.{
  PollTarget, PollingConfig, Poller, Reading, read_device, record_failure, due_devices,
  add_subscriptions, remove_subscription, remove_all_subscriptions, should_trace, max_errors, store,
  without, load_subscriptions,
}
use iot_miniservers.Bridge.Poller.Polling.{
  Answer, Interruption, added, removed, all_removed, stopped, interrupt, poll_targets,
  poll_due_devices, tick, stop, poll_device,
}
use iot_miniservers.Bridge.Poller.Backoff.{IsDistinct, error_count}

insert-IsDistinct :
    {A : Type 0} (k : Text) (v : A) (m : Dict Text A)
    → IsDistinct m
    → IsDistinct (Dict.insert k v m)
unfolding Dict.insert Dict.get
insert-IsDistinct k v [] h = (refl, tt)
insert-IsDistinct k v ((j, w) ∷ m) (fresh, h) = elim (Bool-cases (j == k)) [
  | inl same ↦ rw same (fresh, h)
  | inr other ↦ rw other (
    ground (arith, fresh, other, get-insert k j v m, text_eq.beq_iff j k, text_eq.beq_iff k j),
    insert-IsDistinct k v m h,
  )
]

remove-IsDistinct :
    {A : Type 0} (k : Text) (m : Dict Text A) → IsDistinct m → IsDistinct (Dict.remove k m)
unfolding Dict.remove Dict.get
remove-IsDistinct k [] h = tt
remove-IsDistinct k ((j, w) ∷ m) (fresh, h) = elim (Bool-cases (j == k)) [
  | inl same ↦ rw same (remove-IsDistinct k m h)
  | inr other ↦ rw other (ground (arith, fresh, get-remove k j m), remove-IsDistinct k m h)
]

store-IsDistinct :
    (d : Text) (set : List Text) (m : Dict Text (List Text))
    → IsDistinct m
    → IsDistinct (store d set m)
store-IsDistinct d [] m h = remove-IsDistinct d m h
store-IsDistinct d (p ∷ ps) m h = insert-IsDistinct d (p ∷ ps) m h

without-IsDistinct :
    (d p : Text) (set : Option (List Text)) (m : Dict Text (List Text))
    → IsDistinct m
    → IsDistinct (without d p set m)
without-IsDistinct d p none m h = h
without-IsDistinct d p (some set) m h = store-IsDistinct d (filter (λ q. not (q == p)) set) m h

module _ {V : Type 0} where
  -- No device is listed twice, and every count of errors is below the limit.
  pub record IsSound (limit : ℕ) (s : Poller V) : Type 0 where
    pub distinct : IsDistinct s.subscriptions
    pub bounded : (d : Text) → error_count d s < limit

  record_failure-subscriptions :
      (config : Option PollingConfig) (d : Text) (s : Poller V)
      → (record_failure config d s).subscriptions ≡ s.subscriptions
  unfolding record_failure
  record_failure-subscriptions config d s = ground arith

  record_failure-bounded :
      (config : Option PollingConfig) (d j : Text) (s : Poller V)
      → error_count j s < max_errors config
      → error_count j (record_failure config d s) < max_errors config
  unfolding record_failure
  record_failure-bounded config d j s h =
      ground (
        arith,
        h,
        get-insert d j (error_count d s + 1) s.error_counts,
        get-remove d j s.error_counts,
      )

  module _ (limit : ℕ) where
    load_subscriptions-IsSound :
        (pairs : List (Text × Text)) (s : Poller V)
        → IsSound limit s
        → IsSound limit (load_subscriptions pairs s)
    unfolding load_subscriptions
    load_subscriptions-IsSound [] s h = h
    load_subscriptions-IsSound ((d, p) ∷ pairs) s h = load_subscriptions-IsSound pairs _ (record {
      distinct = insert-IsDistinct d _ s.subscriptions h.distinct;
      bounded = h.bounded;
    })

    interrupt-IsSound :
        (calls : List Interruption) (s : Poller V)
        → IsSound limit s
        → IsSound limit (interrupt calls s)
    unfolding interrupt add_subscriptions remove_subscription remove_all_subscriptions stop
    interrupt-IsSound [] s h = h
    interrupt-IsSound (added d ps ∷ calls) s h =
        interrupt-IsSound calls (add_subscriptions d ps s) (record {
          distinct = insert-IsDistinct d _ s.subscriptions h.distinct;
          bounded = h.bounded;
        })
    interrupt-IsSound (removed d q ∷ calls) s h =
        interrupt-IsSound calls (remove_subscription d q s) (record {
          distinct = without-IsDistinct d q _ s.subscriptions h.distinct;
          bounded = h.bounded;
        })
    interrupt-IsSound (all_removed d ∷ calls) s h =
        interrupt-IsSound calls (remove_all_subscriptions d s) (record {
          distinct = remove-IsDistinct d s.subscriptions h.distinct;
          bounded = h.bounded;
        })
    interrupt-IsSound (stopped ∷ calls) s h =
        interrupt-IsSound calls (stop s) (record { distinct = h.distinct; bounded = h.bounded })

    module _ ⦃e : Eq V⦄ (is_enabled : PollingConfig → Bool) where
      read_device-IsSound :
          (config : Option PollingConfig) (now : ℕ) (d : Text)
          (reply : Result Text (ℕ × List (Reading V))) (s : Poller V)
          → max_errors config ≡ limit
          → IsSound limit s
          → IsSound limit (read_device is_enabled config now d reply s).1
      unfolding read_device
      read_device-IsSound config now d (err m) s k h = record {
        distinct = rw (record_failure-subscriptions config d s) h.distinct;
        bounded = λ j. rw (sym k) (record_failure-bounded config d j s (rw k (h.bounded j)));
      }
      read_device-IsSound none now d (ok (id, rs)) s k h = h
      read_device-IsSound (some config) now d (ok (id, rs)) s k h =
          elim (Bool-cases (is_enabled config)) [
            | inl on ↦ rw on (record {
              distinct = h.distinct;
              bounded = λ j. ground (arith, h.bounded j, get-remove d j s.error_counts);
            })
            | inr off ↦ rw off h
          ]

      due_devices-IsSound : (s : Poller V) → IsSound limit s → IsSound limit (due_devices s).1
      unfolding due_devices
      due_devices-IsSound s h = record { distinct = h.distinct; bounded = h.bounded }

      should_trace-kept :
          (config : Option PollingConfig) (due : List PollTarget) (now : ℕ) (s : Poller V)
          → ((should_trace config due now s).1.subscriptions ≡ s.subscriptions)
            × ((should_trace config due now s).1.error_counts ≡ s.error_counts)
      unfolding should_trace
      should_trace-kept config due now s = ground arith

      should_trace-IsSound :
          (config : Option PollingConfig) (due : List PollTarget) (now : ℕ) (s : Poller V)
          → IsSound limit s
          → IsSound limit (should_trace config due now s).1
      should_trace-IsSound config due now s h =
          let (kept, counts) = should_trace-kept config due now s in
          record { distinct = rw kept h.distinct; bounded = λ d. rw counts (h.bounded d) }

      module _ (answers : PollTarget → Answer V)
          (agreed : (t : PollTarget) → max_errors (answers t).config ≡ limit) where
        poll_targets-IsSound :
            (due : List PollTarget) (s : Poller V)
            → IsSound limit s
            → IsSound limit (poll_targets is_enabled answers due s).1
        unfolding poll_targets
        poll_targets-IsSound [] s h = h
        poll_targets-IsSound (t ∷ due) s h =
            let a = answers t in
            poll_targets-IsSound due (poll_device is_enabled answers t s).1 (
              read_device-IsSound a.config a.now t.device_id a.reply (interrupt a.waiting s)
                (agreed t) (interrupt-IsSound a.waiting s h))

        poll_due-IsSound :
            (config : Option PollingConfig) (now : ℕ) (due : List PollTarget) (s : Poller V)
            → (due_devices s).0 ≡ due
            → IsSound limit s
            → IsSound limit (poll_due_devices is_enabled answers config now s).1
        unfolding poll_due_devices
        poll_due-IsSound config now [] s k h = rw (k, poll_due_devices) (due_devices-IsSound s h)
        poll_due-IsSound config now (t ∷ others) s k h =
            let waited = (due_devices s).1 in
            rw (k, poll_due_devices)
              (poll_targets-IsSound (t ∷ others) (should_trace config (t ∷ others) now waited).1
                (should_trace-IsSound config (t ∷ others) now waited (due_devices-IsSound s h)))

        -- A tick keeps the poller sound, whatever the devices answer and whatever is called in
        -- between, as long as all reads see the same limit of errors.
        pub tick-IsSound :
            (config : Option PollingConfig) (now : ℕ) (s : Poller V)
            → IsSound limit s
            → IsSound limit (tick is_enabled answers config now s).2
        unfolding tick
        tick-IsSound config now s h = elim (Bool-cases s.ticking) [
          | inl busy ↦ rw busy (record { distinct = h.distinct; bounded = h.bounded })
          | inr idle ↦
              let begun = record s { ticking = true } in
              let polled =
                poll_due-IsSound config now (due_devices begun).0 begun refl
                  (record { distinct = h.distinct; bounded = h.bounded }) in
              rw idle (record { distinct = polled.distinct; bounded = polled.bounded })
        ]
