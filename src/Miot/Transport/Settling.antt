-- ===== src/Miot/Transport/Settling.antt =====
-- One exchange: whatever its socket and its timer bring, the promise settles once.
use iot_miniservers.Prelude.{
  ℕ, ◌≡◌, refl, ◌∙◌, true, false, some, List, [], ◌∷◌, arith, if◌then◌else◌, is_some,
}
use iot_miniservers.Prelude.Result.{Result, err}
use iot_miniservers.Miot.Error.{MiotMethod, Thrown}
use iot_miniservers.Miot.Transport.{
  Event, timed_out, message, socket_error, send_failed, Exchange, start, step, run,
  transport_failure,
}

module _ {A : Type 0} (method : MiotMethod) (late : Thrown)
    (accept : List ℕ → Result Thrown A) where
  -- What an event means for an exchange that it finds open.
  abbrev pub meaning : Event → Result Thrown A
  meaning timed_out = err late
  meaning (message bytes) = accept bytes
  meaning (socket_error m) = err (transport_failure method m)
  meaning (send_failed m) = err (transport_failure method m)

  -- The socket is closed as often as the promise has settled, once at most, and an open exchange
  -- has its timer armed.
  pub record IsSound (x : Exchange A) : Type 0 where
    pub closed_once : x.closed ≡ (if x.settled then 1 else 0)
    pub outcome_settled : is_some x.outcome ≡ x.settled
    pub open_armed : x.settled ≡ false → x.armed ≡ true

  pub start-IsSound : IsSound start
  unfolding start
  start-IsSound = ground arith

  -- Every event keeps an exchange sound: its socket is closed once if it is settled and not before, it
  -- has an outcome exactly if it is settled, and its timer is armed while it is open.
  pub step-IsSound :
      (e : Event) (x : Exchange A) → IsSound x → IsSound (step method late accept e x)
  unfolding step
  step-IsSound timed_out x s = ground arith
  step-IsSound (message bytes) x s = ground arith
  step-IsSound (socket_error m) x s = ground arith
  step-IsSound (send_failed m) x s = ground arith

  step-settled :
      (e : Event) (x : Exchange A)
      → x.settled ≡ true
      → ((step method late accept e x).settled ≡ true)
        × ((step method late accept e x).outcome ≡ x.outcome)
        × ((step method late accept e x).closed ≡ x.closed)
  unfolding step
  step-settled timed_out x s = ground arith
  step-settled (message bytes) x s = ground arith
  step-settled (socket_error m) x s = ground arith
  step-settled (send_failed m) x s = ground arith

  run-settled :
      (es : List Event) (x : Exchange A)
      → x.settled ≡ true
      → ((run method late accept es x).outcome ≡ x.outcome)
        × ((run method late accept es x).closed ≡ x.closed)
  unfolding run
  run-settled [] x s = (refl, refl)
  run-settled (e ∷ es) x s =
      let (still, same, closed) = step-settled e x s in
      let (outcome, closes) = run-settled es (step method late accept e x) still in
      (outcome ∙ same, closes ∙ closed)

  step-start :
      (e : Event)
      → ((step method late accept e start).settled ≡ true)
        × ((step method late accept e start).outcome ≡ some (meaning e))
        × ((step method late accept e start).closed ≡ 1)
  unfolding step start
  step-start timed_out = ground arith
  step-start (message bytes) = ground arith
  step-start (socket_error m) = ground arith
  step-start (send_failed m) = ground arith

  -- The first event decides an exchange, of whatever kind it is and whatever comes behind it: the
  -- promise settles with its meaning, and the socket has been closed once.
  run-first :
      (e : Event) (es : List Event)
      → ((run method late accept (e ∷ es) start).outcome ≡ some (meaning e))
        × ((run method late accept (e ∷ es) start).closed ≡ 1)
  unfolding run
  run-first e es =
      let (settled, outcome, closed) = step-start e in
      let (same, closes) = run-settled es (step method late accept e start) settled in
      (same ∙ outcome, closes ∙ closed)
