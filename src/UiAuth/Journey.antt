-- ===== src/UiAuth/Journey.antt =====
-- packages/ui-auth/src/AuthContext.tsx: how often the pages redirect on their own.
use iot_miniservers.Prelude.{
  ℕ, zero, suc, ◌+◌, ◌-◌, ◌*◌, ◌≤◌, ◌<◌, ◌≡◌, ◌⊎◌, refl, sym, ap, ◌∙◌, inl, inr, Bool, true, false,
  not, ◌||◌, Option, none, some, List, [], ◌∷◌, ◌++◌, Text, arith, length, length-append, leb, ltb,
  ◌&&◌, nat_eqb, Bool-cases, Option-cases, if◌then◌else◌,
}
use mathlib.Core.Path.{subst}
use iot_miniservers.Prelude.Result.{Result, ok, err}
use iot_miniservers.UiAuth.{
  User, SessionStorage, Tab, Page, Run, sign_in, recover, futile_renewals, record_futile_renewal,
  renew, renew_user, renew_until, renew_late, on_loaded, is_authenticated,
}
use iot_miniservers.UiAuth.Callback.{
  open_page, Arrival, SignedIn, arrive, adopt_exchanged, fired, journey, is_no_session, new_page,
}

-- A storage that forgets no count: what it can read it can write.
abbrev pub is_guarded : SessionStorage → Bool
is_guarded s = not s.reads || s.writes

abbrev renewals_left : Tab → ℕ
renewals_left t = 2 - futile_renewals t.storage

abbrev pub redirect_count : Tab → ℕ
redirect_count t = length t.redirects

-- A token that has some time left, beyond the skew.
abbrev pub is_early : Page → Option ℕ → Bool
is_early page none = false
is_early page (some e) = not (nat_eqb e 0) && ltb (page.now + 60000) (e * 1000)

-- Three redirects more for a page that waits for its timer.
abbrev bonus : Bool → ℕ
bonus waits = if waits then 3 else 0

-- What a page adds to the redirects, and what it leaves to those behind it.
record Spends (extra : ℕ) (t : Tab) (r : Tab × Bool) : Type 0 where
  within :
      redirect_count r.0 + (if r.1 then renewals_left r.0 else 0)
      ≤ redirect_count t + renewals_left t + extra
  kept : redirect_count r.0 + renewals_left r.0 ≤ redirect_count t + 2 + extra
  guarded : is_guarded r.0.storage ≡ true

abbrev pub expiry_of : Option User → Option ℕ
expiry_of none = none
expiry_of (some u) = u.expires_at

module _ (page : Page) (stays starts : Bool) where
  pub one_more :
      (t : Tab) → length (t.redirects ++ sign_in true page.location ∷ []) ≡ redirect_count t + 1
  one_more t = length-append t.redirects (sign_in true page.location ∷ [])

  unchanged-Spends : (n : ℕ) (t : Tab) → is_guarded t.storage ≡ true → Spends n t (t, false)
  unchanged-Spends n t g = record { within = omega arith; kept = omega arith; guarded = g }

  fired_late-Spends :
      (n : ℕ) (t : Tab)
      → is_guarded t.storage ≡ true
      → Spends n t (fired page stays starts (renew_late t))
  fired_late-Spends n t g = record {
    within = ground (arith, one_more t);
    kept = ground (arith, one_more t);
    guarded = ground arith;
  }

  fired_early-Spends :
      (t t' : Tab) (delay : ℕ)
      → 0 < delay
      → t'.redirects ≡ t.redirects
      → is_guarded t'.storage ≡ true
      → Spends (bonus stays) t (fired page stays starts (t', some delay))
  fired_early-Spends t t' zero h e g = absurd (omega (arith, h))
  fired_early-Spends t t' (suc delay) h e g = record {
    within = ground (arith, ap (λ rs. length rs) e, one_more t');
    kept = ground (arith, ap (λ rs. length rs) e, one_more t');
    guarded = ground (arith, g);
  }

  fired_until-Spends :
      (e : ℕ) (t : Tab)
      → is_guarded t.storage ≡ true
      → Spends
          (bonus (stays && is_early page (some e)))
          t
          (fired page stays starts (renew_until e page.now t))
  fired_until-Spends e t g = elim (Bool-cases (nat_eqb e 0)) [
    | inl unset ↦ rw unset (unchanged-Spends _ t g)
    | inr set ↦ elim (Bool-cases (leb (e * 1000) (page.now + 60000))) [
      | inl late ↦ rw (set, late) (fired_late-Spends _ t g)
      | inr early ↦
          let ahead : ltb (page.now + 60000) (e * 1000) ≡ true = ground (arith, early) in
          let both : (stays && true) ≡ stays = ground arith in
          rw (set, early, ahead, both)
            (fired_early-Spends t (record t { storage = record_futile_renewal 0 t.storage })
              (e * 1000 - (page.now + 60000)) (ground (arith, early)) refl (ground arith))
    ]
  ]

  fired_user-Spends :
      (u : Option User) (t : Tab)
      → is_guarded t.storage ≡ true
      → Spends
          (bonus (stays && is_early page (expiry_of u)))
          t
          (fired page stays starts (renew_user page u t))
  fired_user-Spends none t g = unchanged-Spends _ t g
  fired_user-Spends (some u) t g = elim (Bool-cases page.handling_callback) [
    | inl handling ↦ rw handling (unchanged-Spends _ t g)
    | inr free ↦ elim (Option-cases u.expires_at) [
      | inl unknown ↦ rw (free, unknown) (unchanged-Spends _ t g)
      | inr (e, known) ↦ rw (free, known) (fired_until-Spends e t g)
    ]
  ]

  fired-renew-Spends :
      (t : Tab)
      → is_guarded t.storage ≡ true
      → Spends
          (bonus (stays && is_early page (expiry_of t.user)))
          t
          (fired page stays starts (renew page t))
  unfolding renew
  fired-renew-Spends t g = elim (Bool-cases (is_authenticated t.state)) [
    | inl known ↦ rw known (fired_user-Spends t.user t g)
    | inr unknown ↦ rw unknown (unchanged-Spends _ t g)
  ]

loaded-IsGuarded :
    (u : User) (t : Tab)
    → is_guarded t.storage ≡ true
    → is_guarded (on_loaded false u t).storage ≡ true
loaded-IsGuarded u t g = ground arith

abbrev early_exchange : Page → Result Text SignedIn → Bool
early_exchange page (err e) = false
early_exchange page (ok s) = is_early page s.user.expires_at

-- A callback whose page stays open until the timer of a token with some time left fires.
abbrev pub waits_out : Arrival → Bool
waits_out a = a.stays && early_exchange a.page a.exchange

abbrev pub waits : List Arrival → ℕ
waits [] = 0
waits (a ∷ arrivals) = (if waits_out a then 1 else 0) + waits arrivals

loaded-Spends :
    (a : Arrival) (s : SignedIn) (t : Tab)
    → is_guarded t.storage ≡ true
    → Spends
        (bonus (a.stays && is_early a.page s.user.expires_at))
        t
        (fired a.page a.stays a.starts (renew a.page (on_loaded false s.user t)))
loaded-Spends a s t g =
    let rest =
      fired-renew-Spends a.page a.stays a.starts (on_loaded false s.user t)
        (loaded-IsGuarded s.user t g) in
    record {
      within = ground (arith, rest.within);
      kept = ground (arith, rest.kept);
      guarded = rest.guarded;
    }

adopt_exchanged-Spends :
    (a : Arrival) (r : Result Text SignedIn) (t : Tab)
    → is_guarded t.storage ≡ true
    → Spends (bonus (a.stays && early_exchange a.page r)) t (adopt_exchanged a r t)
adopt_exchanged-Spends a (err e) t g = unchanged-Spends a.page a.stays a.starts _ t g
adopt_exchanged-Spends a (ok s) t g = loaded-Spends a s t g

arrive-Spends :
    (a : Arrival) (t : Tab)
    → is_guarded t.storage ≡ true
    → Spends (bonus (waits_out a)) t (arrive a t)
unfolding arrive
arrive-Spends a t g = elim (Bool-cases (is_no_session a.error)) [
  | inl asked ↦ rw asked (record { within = omega arith; kept = omega arith; guarded = g })
  | inr exchanged ↦
      let rest = adopt_exchanged-Spends a a.exchange (new_page t) g in
      rw exchanged (record { within = rest.within; kept = rest.kept; guarded = rest.guarded })
]

journey-within :
    (arrivals : List Arrival) (t : Tab)
    → is_guarded t.storage ≡ true
    → redirect_count (journey arrivals t) ≤ redirect_count t + renewals_left t + 3 * waits arrivals
unfolding journey
journey-within [] t g = omega arith
journey-within (a ∷ arrivals) t g =
    let one = arrive-Spends a t g in
    let rest = journey-within arrivals (arrive a t).0 one.guarded in
    elim (Bool-cases (arrive a t).1) [
      | inl left ↦ let within = rw left at one.within in rw left (ground (arith, within, rest))
      | inr stayed ↦ let within = rw stayed at one.within in rw stayed (ground (arith, within))
    ]

abbrev pub found_user : Result Text (Option User) → Option User
found_user (err e) = none
found_user (ok o) = o

-- The recovery of a page ends without a session, with one redirect at most, or with the session that it has found.
abbrev Recovered : Page → Result Text (Option User) → Tab → Tab → Type 0
Recovered page answer t t' =
    ((is_authenticated t'.state ≡ false) × (redirect_count t' ≤ redirect_count t + 1))
    ⊎ ((t'.user ≡ found_user answer) × (redirect_count t' ≡ redirect_count t))

recover-Recovered :
    (expired : User → ℕ → Bool) (page : Page) (answer : Result Text (Option User)) (run : Run)
    (t : Tab)
    → let t' = recover expired page answer run (new_page t) in
      Recovered page answer t t' × (is_guarded t'.storage ≡ is_guarded t.storage)
unfolding recover
recover-Recovered expired page (err e) run t = (inl (ground arith, ground arith), ground arith)
recover-Recovered expired page (ok none) run t = (
  inl (ground arith, ground (arith, length-append t.redirects (sign_in true page.location ∷ []))),
  ground arith,
)
recover-Recovered expired page (ok (some u)) run t =
    elim (Bool-cases (not page.handling_callback && not (expired u page.now))) [
      | inl current ↦ elim (Bool-cases run.cancelled) [
        | inl gone ↦ (inl (ground arith, ground arith), ground arith)
        | inr here ↦ (inr (ground arith, ground arith), ground arith)
      ]
      | inr other ↦ (
        inl (
          ground (arith, other),
          ground (arith, length-append t.redirects (sign_in true page.location ∷ [])),
        ),
        ground arith,
      )
    ]

renew-signed_out :
    (page : Page) (t : Tab) → is_authenticated t.state ≡ false → renew page t ≡ (t, none)
unfolding renew
renew-signed_out page t h = rw h refl

open_page-within :
    (expired : User → ℕ → Bool) (page : Page) (answer : Result Text (Option User)) (run : Run)
    (stays : Bool) (t : Tab)
    → is_guarded t.storage ≡ true
    → let t' = open_page expired page answer run stays t in
      (redirect_count t' + renewals_left t'
        ≤ redirect_count t + 3 + bonus (stays && is_early page (expiry_of (found_user answer))))
      × (is_guarded t'.storage ≡ true)
unfolding open_page
open_page-within expired page answer run stays t g =
    let t' = recover expired page answer run (new_page t) in
    let (recovered, same) = recover-Recovered expired page answer run t in
    let spent = fired-renew-Spends page stays run.starts t' (same ∙ g) in
    elim recovered [
      | inl (without, few) ↦ (
        subst
            (λ u.
              redirect_count u + renewals_left u
              ≤ redirect_count t
                + 3
                + bonus (stays && is_early page (expiry_of (found_user answer))))
            (sym (
              ap (λ (r : Tab × Option ℕ). (fired page stays run.starts r).0)
                (renew-signed_out page t' without)))
            (omega (arith, few)),
        spent.guarded,
      )
      | inr (it, none_left) ↦ (rw (← it) (omega (arith, spent.kept, none_left)), spent.guarded)
    ]

-- A page that the user opens, and the callbacks that follow without the user, redirect at most three
-- times, and three times more for each page among them that stays open until the timer of a token with some time
-- left fires, whatever the identity provider answers, as long as what the storage can read it can write.
pub journey-recover :
    (expired : User → ℕ → Bool) (page : Page) (answer : Result Text (Option User)) (run : Run)
    (stays : Bool) (arrivals : List Arrival) (t : Tab)
    → is_guarded t.storage ≡ true
    → redirect_count (journey arrivals (open_page expired page answer run stays t))
      ≤ redirect_count t
        + 3
          * (1
              + (if stays && is_early page (expiry_of (found_user answer)) then 1 else 0)
              + waits arrivals)
journey-recover expired page answer run stays arrivals t g =
    let (few, guarded) = open_page-within expired page answer run stays t g in
    let rest = journey-within arrivals (open_page expired page answer run stays t) guarded in
    ground (arith, few, rest)
