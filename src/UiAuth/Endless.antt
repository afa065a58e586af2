-- ===== src/UiAuth/Endless.antt =====
-- packages/ui-auth/src/AuthContext.tsx: a storage that forgets the count of attempts.
use iot_miniservers.Prelude.{
  ℕ, ◌+◌, ◌*◌, ◌≡◌, ap, ◌∙◌, inl, inr, Bool, true, false, not, Option, none, some, List, [], ◌∷◌,
  Text, every, arith, length, leb, ltb, or_else, ◌&&◌, nat_eqb, Option-cases,
}
use iot_miniservers.Prelude.Result.{Result, ok, err}
use iot_miniservers.UiAuth.{
  User, SessionStorage, Tab, Page, renew, renew_user, renew_late, on_loaded,
}
use iot_miniservers.UiAuth.Callback.{
  Arrival, SignedIn, arrive, adopt_exchanged, fired, journey, is_no_session, new_page,
}
use iot_miniservers.UiAuth.Journey.{redirect_count, one_more}

abbrev pub is_late : Page → Option ℕ → Bool
is_late page none = false
is_late page (some e) = not (nat_eqb e 0) && leb (e * 1000) (page.now + 60000)

abbrev pub late_exchange : Page → Result Text SignedIn → Bool
late_exchange page (err e) = false
late_exchange page (ok s) = is_late page s.user.expires_at

-- A callback that brings a token which is about to expire, or has expired, to a page that can leave for another one.
abbrev pub brings_late : Arrival → Bool
brings_late a =
    not (is_no_session a.error)
    && late_exchange a.page a.exchange
    && not a.page.handling_callback
    && a.starts

abbrev pub forgets : SessionStorage → Bool
forgets s = s.reads && not s.writes && ltb (or_else s.renew_attempts 0) 2

record Repeats (t : Tab) (r : Tab × Bool) : Type 0 where
  leaves : r.1 ≡ true
  counted : redirect_count r.0 ≡ redirect_count t + 1
  forgotten : forgets r.0.storage ≡ true

module _ (a : Arrival) (free : a.page.handling_callback ≡ false) (starts : a.starts ≡ true) where
  fired_late-Repeats :
      (t : Tab)
      → forgets t.storage ≡ true
      → Repeats t (fired a.page a.stays a.starts (renew_late t))
  fired_late-Repeats t f = record {
    leaves = ground arith;
    counted = ground (arith, one_more a.page a.stays a.starts t);
    forgotten = ground arith;
  }

  fired-renew-Repeats :
      (u : User) (t : Tab)
      → is_late a.page u.expires_at ≡ true
      → forgets t.storage ≡ true
      → Repeats t (fired a.page a.stays a.starts (renew_user a.page (some u) t))
  fired-renew-Repeats u t late f = elim (Option-cases u.expires_at) [
    | inl unknown ↦ absurd (ground arith)
    | inr (e, known) ↦
        let set : nat_eqb e 0 ≡ false = ground (arith, ap (is_late a.page) known) in
        let soon : leb (e * 1000) (a.page.now + 60000) ≡ true =
          ground (arith, ap (is_late a.page) known) in
        rw (free, known, set, soon) (fired_late-Repeats t f)
  ]

  loaded-forgets :
      (u : User) (t : Tab) → forgets t.storage ≡ true → forgets (on_loaded false u t).storage ≡ true
  loaded-forgets u t f = ground arith

  loaded-redirects : (u : User) (t : Tab) → (on_loaded false u t).redirects ≡ t.redirects
  loaded-redirects u t = ground arith

  adopt_exchanged-Repeats :
      (r : Result Text SignedIn) (t : Tab)
      → late_exchange a.page r ≡ true
      → forgets t.storage ≡ true
      → Repeats t (adopt_exchanged a r t)
  unfolding renew
  adopt_exchanged-Repeats (err e) t late f = absurd (ground arith)
  adopt_exchanged-Repeats (ok s) t late f =
      let rest =
        fired-renew-Repeats s.user (on_loaded false s.user t) late (loaded-forgets s.user t f) in
      record {
        leaves = rest.leaves;
        counted = rest.counted ∙ ap (λ rs. length rs + 1) (loaded-redirects s.user t);
        forgotten = rest.forgotten;
      }

arrive-Repeats :
    (a : Arrival) (t : Tab)
    → brings_late a ≡ true
    → forgets t.storage ≡ true
    → Repeats t (arrive a t)
unfolding arrive
arrive-Repeats a t late f =
    let asked : is_no_session a.error ≡ false = ground arith in
    let rest =
      adopt_exchanged-Repeats a (ground arith) (ground arith) a.exchange (new_page t) (ground arith)
        f in
    rw asked (record { leaves = rest.leaves; counted = rest.counted; forgotten = rest.forgotten })

-- Where the storage can be read and not written, and holds a count of attempts below two or none, as many
-- callbacks as come with a token that is about to expire, to a page whose query holds no code any more and that can start a
-- redirect, redirect as many times: the count of attempts never stops them.
pub journey-endless :
    (arrivals : List Arrival) (t : Tab)
    → every brings_late arrivals ≡ true
    → forgets t.storage ≡ true
    → redirect_count (journey arrivals t) ≡ redirect_count t + length arrivals
unfolding journey
journey-endless [] t late f = omega arith
journey-endless (a ∷ arrivals) t late f =
    let one = arrive-Repeats a t (ground arith) f in
    let rest = journey-endless arrivals (arrive a t).0 (ground arith) one.forgotten in
    rw one.leaves (omega (arith, rest, one.counted))
