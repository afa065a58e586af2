-- ===== src/Http/Single.antt =====
-- Which credentials a strategy keeps, and how many fetches it has under way.
use iot_miniservers.Prelude.{
  ℕ, ◌+◌, ◌≤◌, ◌<◌, ◌≡◌, refl, ◌∙◌, inl, inr, false, Option, none, some, Bool-cases, List, [], ◌∷◌,
  map, find, nat_eqb, arith, ltb, if◌then◌else◌,
}
use iot_miniservers.Prelude.Result.{Result, ok, err}
use iot_miniservers.Http.Credentials.{
  Kept, Flight, Fetch, Strategy, Occasion, wanted, invalidated, fetched, wait_on, remove_fetch,
  flying, join_or_start, answer_or_wait, invalidate, keep, clear, get_credentials, settle_fetch,
  happen, happen_all,
}

-- How many fetches of an epoch are under way.
abbrev pub under_way : ℕ → List Fetch → ℕ
under_way epoch [] = 0
under_way epoch (f ∷ fs) =
    let rest = under_way epoch fs in if nat_eqb f.request_epoch epoch then rest + 1 else rest

abbrev pub IsCurrent : {C : Type 0} → ℕ → Option (Kept C) → Type 0
IsCurrent epoch none = Unit {0}
IsCurrent epoch (some kept) = kept.epoch ≡ epoch

abbrev pub IsFlying : ℕ → Option Flight → Type 0
IsFlying epoch none = ⊥
IsFlying epoch (some flight) = flight.flight_epoch ≡ epoch

-- What is kept is of the current epoch; no fetch is of a later one; and at most one is of the current
-- epoch, the one that callers may join.
pub record IsSingle {C : Type 0} (s : Strategy C) : Type 0 where
  pub current : IsCurrent s.cache_epoch s.cached
  pub past : (epoch : ℕ) → s.cache_epoch < epoch → under_way epoch s.pending ≡ 0
  pub single : under_way s.cache_epoch s.pending ≤ 1
  pub joined : 0 < under_way s.cache_epoch s.pending → IsFlying s.cache_epoch s.in_flight

under_way-wait_on :
    (epoch number caller : ℕ) (fs : List Fetch)
    → under_way epoch (map (wait_on number caller) fs) ≡ under_way epoch fs
under_way-wait_on epoch number caller [] = refl
under_way-wait_on epoch number caller (f ∷ fs) = elim (Bool-cases (nat_eqb f.number number)) [
  | inl same ↦ rw (same, under_way-wait_on epoch number caller fs) refl
  | inr other ↦ rw (other, under_way-wait_on epoch number caller fs) refl
]

-- Taking the first fetch with a number away takes away one of its epoch.
under_way-remove_fetch :
    (epoch number : ℕ) (f : Fetch) (fs : List Fetch)
    → find (λ g. nat_eqb g.number number) fs ≡ some f
    → under_way epoch fs
      ≡ under_way epoch (remove_fetch number fs) + (if nat_eqb f.request_epoch epoch then 1 else 0)
under_way-remove_fetch epoch number f [] h = ground (arith, h)
under_way-remove_fetch epoch number f (g ∷ fs) h = elim (Bool-cases (nat_eqb g.number number)) [
  | inl same ↦ ground (arith, h, same)
  | inr other ↦
      let below = under_way-remove_fetch epoch number f fs (ground (arith, h, other)) in
      rw other (ground (arith, below))
]

not_flying :
    (epoch : ℕ) (flight : Option Flight) → flying flight epoch ≡ none → ¬ IsFlying epoch flight
not_flying epoch none h x = x
not_flying epoch (some flight) h x = ground (arith, h, x)

clear-IsFlying :
    (epoch request_epoch : ℕ) (flight : Option Flight)
    → nat_eqb request_epoch epoch ≡ false
    → IsFlying epoch flight
    → IsFlying epoch (clear request_epoch flight)
clear-IsFlying epoch request_epoch none h x = x
clear-IsFlying epoch request_epoch (some flight) h x =
    let other : nat_eqb flight.flight_epoch request_epoch ≡ false = ground (arith, h, x) in
    rw other x

module _ {C : Type 0} where
  none_under_way :
      (s : Strategy C)
      → IsSingle s
      → ¬ IsFlying s.cache_epoch s.in_flight
      → under_way s.cache_epoch s.pending ≡ 0
  none_under_way s w alone = elim (Bool-cases (ltb 0 (under_way s.cache_epoch s.pending))) [
    | inl some_ ↦ absurd (alone (w.joined (ground (arith, some_))))
    | inr empty_ ↦ ground (arith, empty_)
  ]

  join_or_start-IsSingle :
      (caller : ℕ) (joinable : Option ℕ) (s : Strategy C)
      → flying s.in_flight s.cache_epoch ≡ joinable
      → IsSingle s
      → IsSingle (join_or_start caller joinable s)
  unfolding join_or_start
  join_or_start-IsSingle caller (some number) s h w =
      let same = λ (epoch : ℕ). under_way-wait_on epoch number caller s.pending in
      record {
        current = w.current;
        past = λ epoch later. same epoch ∙ w.past epoch later;
        single = rw (same s.cache_epoch) w.single;
        joined = λ more. w.joined (omega (arith, more, same s.cache_epoch));
      }
  join_or_start-IsSingle caller none s h w =
      let free : under_way s.cache_epoch s.pending ≡ 0 =
        none_under_way s w (not_flying s.cache_epoch s.in_flight h) in
      record {
        current = w.current;
        past = λ epoch later. ground (arith, later, w.past epoch later);
        single = ground (arith, free);
        joined = λ more. refl;
      }

  invalidate-IsSingle : (s : Strategy C) → IsSingle s → IsSingle (invalidate s)
  unfolding invalidate
  invalidate-IsSingle s w = record {
    current = tt;
    past = λ epoch later. w.past epoch (omega (arith, later));
    single = omega (arith, w.past (s.cache_epoch + 1) (omega arith));
    joined = λ some_. absurd (omega (arith, some_, w.past (s.cache_epoch + 1) (omega arith)));
  }

module _ {C : Type 0} where
  answer_or_wait-IsSingle :
      (E : Type 0) (caller : ℕ) (c : Option C) (s : Strategy C)
      → IsSingle s
      → IsSingle (answer_or_wait {E = E} caller c s).1
  answer_or_wait-IsSingle E caller none s w = join_or_start-IsSingle caller _ s refl w
  answer_or_wait-IsSingle E caller (some c) s w = w

module _ {E C : Type 0} where
  module _ (lifetime : Option ℕ) where
    keep-epoch :
        (now request_epoch : ℕ) (result : Result E C) (s : Strategy C)
        → ((keep lifetime now request_epoch result s).cache_epoch ≡ s.cache_epoch)
          × ((keep lifetime now request_epoch result s).pending ≡ s.pending)
    keep-epoch now request_epoch (err e) s = (refl, refl)
    keep-epoch now request_epoch (ok c) s =
        elim (Bool-cases (nat_eqb s.cache_epoch request_epoch)) [
          | inl same ↦ rw same (refl, refl)
          | inr other ↦ rw other (refl, refl)
        ]

    keep-IsCurrent :
        (now request_epoch : ℕ) (result : Result E C) (s : Strategy C)
        → IsCurrent s.cache_epoch s.cached
        → IsCurrent s.cache_epoch (keep lifetime now request_epoch result s).cached
    keep-IsCurrent now request_epoch (err e) s h = h
    keep-IsCurrent now request_epoch (ok c) s h =
        elim (Bool-cases (nat_eqb s.cache_epoch request_epoch)) [
          | inl same ↦ rw same (ground (arith, same))
          | inr other ↦ rw other h
        ]

    settle_fetch-IsSingle :
        (number now : ℕ) (result : Result E C) (f : Option Fetch) (s : Strategy C)
        → find (λ g. nat_eqb g.number number) s.pending ≡ f
        → IsSingle s
        → IsSingle (settle_fetch lifetime number now result f s).1
    settle_fetch-IsSingle number now result none s h w = w
    settle_fetch-IsSingle number now result (some f) s h w =
        let epoch = s.cache_epoch in
        let k = keep lifetime now f.request_epoch result s in
        let same : k.cache_epoch ≡ epoch = (keep-epoch now f.request_epoch result s).0 in
        let removed = λ (e : ℕ). under_way-remove_fetch e number f s.pending h in
        record {
          current = rw same (keep-IsCurrent now f.request_epoch result s w.current);
          past = λ e later.
              omega (arith, same, later, removed e, w.past e (omega (arith, same, later)));
          single = rw same (omega (arith, removed epoch, w.single));
          joined = rw same (λ more. elim (Bool-cases (nat_eqb f.request_epoch epoch)) [
            | inl mine ↦ absurd (ground (arith, mine, more, removed epoch, w.single))
            | inr other ↦
                clear-IsFlying epoch f.request_epoch s.in_flight other
                  (w.joined (omega (arith, more, removed epoch)))
          ]);
        }

    happen-IsSingle :
        (x : Occasion E C) (s : Strategy C) → IsSingle s → IsSingle (happen lifetime x s).1
    unfolding happen get_credentials
    happen-IsSingle (wanted caller now) s w = answer_or_wait-IsSingle E caller _ s w
    happen-IsSingle invalidated s w = invalidate-IsSingle s w
    happen-IsSingle (fetched number now result) s w =
        settle_fetch-IsSingle number now result _ s refl w

    -- Whatever callers, invalidations and ends of fetches come in whatever order, what is kept has been asked for since the
    -- last invalidation, and at most one fetch is under way that has been started since then.
    pub happen_all-IsSingle :
        (xs : List (Occasion E C)) (s : Strategy C)
        → IsSingle s
        → IsSingle (happen_all lifetime xs s).1
    unfolding happen_all
    happen_all-IsSingle [] s w = w
    happen_all-IsSingle (x ∷ xs) s w =
        happen_all-IsSingle xs (happen lifetime x s).1 (happen-IsSingle x s w)
