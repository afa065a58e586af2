-- ===== src/Health/Draining.antt =====
-- The order of a shutdown, whatever signals and deadlines come in between.
use iot_miniservers.Prelude.{
  ◌≡◌, ◌∙◌, refl, sym, ap, Bool, true, false, inl, inr, List, [], ◌∷◌, ◌++◌, arith, filter,
  Bool-cases, ltb, append-nil,
}
use iot_miniservers.Health.Shutdown.{
  ShutdownOptions, Phase, idle, draining, stopping, leaving, finished, Action, announced_draining,
  began_drain, announced_stopping, called_stop, announced_stopped, called_on_stopped,
  called_hard_deadline, Happening, signal, delay_over, stop_settled, on_stopped_settled, deadline,
  Handler, begin_drain, begin, begin_stop, finish, fire, advance, handle,
}

-- Everything but the hard deadline is planned.
abbrev pub is_planned : Action → Bool
is_planned called_hard_deadline = false
is_planned _ = true

abbrev pub after_stop : List Action
after_stop = announced_draining ∷ began_drain ∷ announced_stopping ∷ called_stop ∷ []

-- What has been done, in order, when a phase is reached.
abbrev pub script : Phase → List Action
script idle = []
script draining = announced_draining ∷ began_drain ∷ []
script stopping = after_stop
script leaving = after_stop ++ announced_stopped ∷ called_on_stopped ∷ []
script (finished true) = after_stop ++ announced_stopped ∷ called_on_stopped ∷ []
script (finished false) = after_stop

abbrev pub is_under_way : Phase → Bool
is_under_way idle = false
is_under_way (finished stopped) = false
is_under_way _ = true

-- The planned actions are those of the phase, and the deadline is armed only during a shutdown.
pub record IsOrderly (s : Handler) : Type 0 where
  pub planned : filter is_planned s.actions ≡ script s.phase
  pub disarmed : is_under_way s.phase ≡ false → s.armed ≡ false

filter-append :
    (xs ys : List Action)
    → filter is_planned (xs ++ ys) ≡ filter is_planned xs ++ filter is_planned ys
filter-append [] ys = refl
filter-append (x ∷ xs) ys = elim (Bool-cases (is_planned x)) [
  | inl plan ↦ rw (plan, filter-append xs ys) refl
  | inr other ↦ rw (other, filter-append xs ys) refl
]

begin_stop-IsOrderly :
    (s : Handler) → filter is_planned s.actions ≡ script draining → IsOrderly (begin_stop s)
unfolding begin_stop
begin_stop-IsOrderly s h = record {
  planned = rw (filter-append s.actions (announced_stopping ∷ called_stop ∷ []), h) refl;
  disarmed = λ k. ground (arith, k);
}

fire-IsOrderly : (s : Handler) → IsOrderly s → IsOrderly (fire s)
unfolding fire
fire-IsOrderly s h = elim (Bool-cases s.armed) [
  | inl armed ↦
      rw (armed, fire)
        (record {
          planned =
              rw
                (
                  filter-append s.actions (called_hard_deadline ∷ []),
                  append-nil (filter is_planned s.actions),
                )
                h.planned;
          disarmed = λ u. refl;
        })
  | inr off ↦ rw (off, fire) (record { planned = h.planned; disarmed = λ u. refl })
]

module _ (options : ShutdownOptions) where
  begin_drain-planned :
      (s : Handler)
      → filter is_planned s.actions ≡ []
      → filter is_planned (begin_drain options s).actions ≡ script draining
  unfolding begin_drain
  begin_drain-planned s h =
      rw (filter-append s.actions (announced_draining ∷ began_drain ∷ []), h) refl

  begin_drain-phase : (s : Handler) → (begin_drain options s).phase ≡ draining
  unfolding begin_drain
  begin_drain-phase s = refl

  begin_drain-IsOrderly :
      (s : Handler) → filter is_planned s.actions ≡ [] → IsOrderly (begin_drain options s)
  begin_drain-IsOrderly s h = record {
    planned = begin_drain-planned s h ∙ ap script (sym (begin_drain-phase s));
    disarmed = λ k. ground (arith, ap is_under_way (begin_drain-phase s), k);
  }

  begin-IsOrderly : (s : Handler) → filter is_planned s.actions ≡ [] → IsOrderly (begin options s)
  unfolding begin
  begin-IsOrderly s h = elim (Bool-cases (ltb 0 options.drain_delay_ms)) [
    | inl waits ↦ rw waits (begin_drain-IsOrderly s h)
    | inr at_once ↦
        rw at_once (begin_stop-IsOrderly (begin_drain options s) (begin_drain-planned s h))
  ]

  advance-IsOrderly :
      (p : Phase) (x : Happening) (s : Handler)
      → s.phase ≡ p
      → IsOrderly s
      → IsOrderly (advance options p x s)
  unfolding advance finish
  advance-IsOrderly idle signal s k h = begin-IsOrderly s (h.planned ∙ ap script k)
  advance-IsOrderly draining delay_over s k h = begin_stop-IsOrderly s (h.planned ∙ ap script k)
  advance-IsOrderly stopping (stop_settled true) s k h = record {
    planned =
        rw
          (
            filter-append s.actions (announced_stopped ∷ called_on_stopped ∷ []),
            h.planned ∙ ap script k,
          )
          refl;
    disarmed = λ u. ground (arith, u);
  }
  advance-IsOrderly stopping (stop_settled false) s k h = record {
    planned = h.planned ∙ ap script k;
    disarmed = λ u. refl;
  }
  advance-IsOrderly leaving on_stopped_settled s k h = record {
    planned = h.planned ∙ ap script k;
    disarmed = λ u. refl;
  }
  advance-IsOrderly idle deadline s k h = fire-IsOrderly s h
  advance-IsOrderly draining deadline s k h = fire-IsOrderly s h
  advance-IsOrderly stopping deadline s k h = fire-IsOrderly s h
  advance-IsOrderly leaving deadline s k h = fire-IsOrderly s h
  advance-IsOrderly (finished stopped) deadline s k h = fire-IsOrderly s h
  advance-IsOrderly idle delay_over s k h = h
  advance-IsOrderly idle (stop_settled b) s k h = h
  advance-IsOrderly idle on_stopped_settled s k h = h
  advance-IsOrderly draining signal s k h = h
  advance-IsOrderly draining (stop_settled b) s k h = h
  advance-IsOrderly draining on_stopped_settled s k h = h
  advance-IsOrderly stopping signal s k h = h
  advance-IsOrderly stopping delay_over s k h = h
  advance-IsOrderly stopping on_stopped_settled s k h = h
  advance-IsOrderly leaving signal s k h = h
  advance-IsOrderly leaving delay_over s k h = h
  advance-IsOrderly leaving (stop_settled b) s k h = h
  advance-IsOrderly (finished stopped) signal s k h = h
  advance-IsOrderly (finished stopped) delay_over s k h = h
  advance-IsOrderly (finished stopped) (stop_settled b) s k h = h
  advance-IsOrderly (finished stopped) on_stopped_settled s k h = h

  -- Whatever signals come, and whenever delays, stops and deadlines end, a shutdown keeps its order:
  -- the drain begins before the platform is stopped, each step is taken once, and behind the end,
  -- also of a stop that failed, no deadline is armed.
  pub handle-IsOrderly :
      (happenings : List Happening) (s : Handler)
      → IsOrderly s
      → IsOrderly (handle options happenings s)
  unfolding handle
  handle-IsOrderly [] s h = h
  handle-IsOrderly (x ∷ happenings) s h =
      handle-IsOrderly happenings (advance options s.phase x s)
        (advance-IsOrderly s.phase x s refl h)
