-- ===== src/Health/Sharing.antt =====
-- The registry under any sequence of callers and of runs that end.
use iot_miniservers.Prelude.{
  ℕ, ◌+◌, ◌<◌, ◌≡◌, refl, true, false, inl, inr, some, List, [], ◌∷◌, arith, map, nat_eqb, ◌++◌,
  Bool-cases, Option-cases, if◌then◌else◌,
}
use iot_miniservers.Health.Registry.{
  HealthEvaluation, Registry, Event, asked, settled, fresh, join, evaluate, complete, handle_event,
  handle_events,
}

-- One run at most is under way, and nobody waits without one.
pub record IsShared (s : Registry) : Type 0 where
  pub one_run : s.runs ≡ s.ended + (if s.in_flight then 1 else 0)
  pub no_wait : s.in_flight ≡ false → s.waiting ≡ []

-- How often a caller stands in a list of callers, and among those who ask.
abbrev pub tally : ℕ → List ℕ → ℕ
tally c [] = 0
tally c (caller ∷ callers) = (if nat_eqb caller c then 1 else 0) + tally c callers

abbrev pub asks : ℕ → List Event → ℕ
asks c [] = 0
asks c (asked caller now ∷ events) = (if nat_eqb caller c then 1 else 0) + asks c events
asks c (settled at value ∷ events) = asks c events

abbrev pub answered_to : List (ℕ × HealthEvaluation) → List ℕ
answered_to answers = map (λ a. a.0) answers

asks-cons :
    (c : ℕ) (event : Event) (events : List Event)
    → asks c (event ∷ events) ≡ asks c (event ∷ []) + asks c events
asks-cons c (asked caller now) events = omega arith
asks-cons c (settled at value) events = omega arith

tally-append :
    (c : ℕ) (xs ys : List (ℕ × HealthEvaluation))
    → tally c (answered_to (xs ++ ys)) ≡ tally c (answered_to xs) + tally c (answered_to ys)
tally-append c [] ys = omega arith
tally-append c (x ∷ xs) ys = omega (arith, tally-append c xs ys)

tally-map :
    (c : ℕ) (value : HealthEvaluation) (callers : List ℕ)
    → tally c (answered_to (map (λ caller. (caller, value)) callers)) ≡ tally c callers
tally-map c value [] = refl
tally-map c value (caller ∷ callers) = omega (arith, tally-map c value callers)

join-IsShared : (caller : ℕ) (s : Registry) → IsShared s → IsShared (join caller s)
unfolding join
join-IsShared caller s h = record {
  one_run = ground (arith, h.one_run);
  no_wait = λ k. ground (arith, k);
}

complete-IsShared :
    (at : ℕ) (value : HealthEvaluation) (s : Registry)
    → IsShared s
    → IsShared (complete at value s).1
unfolding complete
complete-IsShared at value s h = record {
  one_run = ground (arith, h.one_run);
  no_wait = λ k. ground (arith, k, h.no_wait);
}

join-waiting :
    (c caller : ℕ) (s : Registry)
    → tally c (join caller s).waiting ≡ (if nat_eqb caller c then 1 else 0) + tally c s.waiting
unfolding join
join-waiting c caller s = elim (Bool-cases s.in_flight) [
  | inl flying ↦ rw flying refl
  | inr resting ↦ rw resting refl
]

complete-waiting :
    (c at : ℕ) (value : HealthEvaluation) (s : Registry)
    → tally c (answered_to (complete at value s).0) + tally c (complete at value s).1.waiting
      ≡ tally c s.waiting
unfolding complete
complete-waiting c at value s = elim (Bool-cases s.in_flight) [
  | inl flying ↦ rw flying (omega (arith, tally-map c value s.waiting))
  | inr resting ↦ rw resting (omega arith)
]

module _ (ttl : ℕ) where
  handle_event-IsShared :
      (event : Event) (s : Registry) → IsShared s → IsShared (handle_event ttl event s).1
  unfolding handle_event evaluate
  handle_event-IsShared (asked caller now) s h = elim (Option-cases (fresh ttl now s.cached)) [
    | inl stale ↦ rw (stale, evaluate) (join-IsShared caller s h)
    | inr (value, held) ↦ rw (held, evaluate) h
  ]
  handle_event-IsShared (settled at value) s h = complete-IsShared at value s h

  -- Whatever callers come and whenever runs end, there is never more than one run under way, and
  -- nobody waits without one.
  pub handle_events-IsShared :
      (events : List Event) (s : Registry) → IsShared s → IsShared (handle_events ttl events s).1
  unfolding handle_events
  handle_events-IsShared [] s h = h
  handle_events-IsShared (event ∷ events) s h =
      handle_events-IsShared events (handle_event ttl event s).1 (handle_event-IsShared event s h)

  handle_event-waiting :
      (c : ℕ) (event : Event) (s : Registry)
      → tally c (answered_to (handle_event ttl event s).0)
          + tally c (handle_event ttl event s).1.waiting
        ≡ tally c s.waiting + asks c (event ∷ [])
  unfolding handle_event evaluate
  handle_event-waiting c (asked caller now) s = elim (Option-cases (fresh ttl now s.cached)) [
    | inl stale ↦ rw (stale, evaluate) (omega (arith, join-waiting c caller s))
    | inr (value, held) ↦ rw (held, evaluate) (omega arith)
  ]
  handle_event-waiting c (settled at value) s = omega (arith, complete-waiting c at value s)

  -- Over any sequence of callers and of runs that end, each caller is answered once for each time that it asked or
  -- waited before, or still waits: the answers to a caller and its places among those who wait in the
  -- end are as many as its places before and its calls.
  pub handle_events-waiting :
      (c : ℕ) (events : List Event) (s : Registry)
      → tally c (answered_to (handle_events ttl events s).0)
          + tally c (handle_events ttl events s).1.waiting
        ≡ tally c s.waiting + asks c events
  unfolding handle_events
  handle_events-waiting c [] s = omega arith
  handle_events-waiting c (event ∷ events) s =
      let first = handle_event ttl event s in
      let rest = handle_events ttl events first.1 in
      omega (
        arith,
        tally-append c first.0 rest.0,
        handle_event-waiting c event s,
        handle_events-waiting c events first.1,
        asks-cons c event events,
      )

  complete-fresh :
      (at now : ℕ) (value : HealthEvaluation) (s : Registry)
      → s.in_flight ≡ true
      → now < at + ttl
      → ((complete at value s).1.waiting ≡ [])
        × (fresh ttl now (complete at value s).1.cached ≡ some value)
  unfolding complete
  complete-fresh at now value s flying soon = ground (arith, flying, soon)

  -- When a run ends, nobody waits any more; and whoever asks within the time to live behind it gets
  -- its value at once, without another run.
  complete-evaluate :
      (at now caller : ℕ) (value : HealthEvaluation) (s : Registry)
      → s.in_flight ≡ true
      → now < at + ttl
      → let s' = (complete at value s).1 in
        (s'.waiting ≡ []) × (evaluate ttl caller now s' ≡ ((caller, value) ∷ [], s'))
  unfolding evaluate
  complete-evaluate at now caller value s flying soon =
      let (nobody, held) = complete-fresh at now value s flying soon in
      (nobody, rw (held, evaluate) refl)
