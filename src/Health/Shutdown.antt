-- ===== src/Health/Shutdown.antt =====
-- packages/tsed-health/src/createShutdownHandler.ts: the handler of a termination signal as a machine
-- over the signals that come, the ends of what it awaits, and its hard deadline. The announcements
-- of phases are taken not to throw.
use iot_miniservers.Prelude.{ℕ, Bool, true, false, List, [], ◌∷◌, ◌++◌, ltb, if◌then◌else◌}

pub record ShutdownOptions : Type 0 where
  pub drain_delay_ms : ℕ
  pub hard_deadline_ms : ℕ

-- What a handler waits for; `finished` says whether the platform stopped without an error.
pub data Phase : Type 0 where
  idle draining stopping leaving : Phase
  finished : Bool → Phase

pub data Action : Type 0 where
  announced_draining began_drain announced_stopping called_stop : Action
  announced_stopped called_on_stopped called_hard_deadline : Action

pub data Happening : Type 0 where
  signal : Happening
  delay_over : Happening
  stop_settled : Bool → Happening
  on_stopped_settled : Happening
  deadline : Happening

pub record Handler : Type 0 where
  pub phase : Phase
  pub armed : Bool
  pub actions : List Action

unfoldable pub begin_stop : Handler → Handler
begin_stop s = record s {
  phase = stopping;
  actions = s.actions ++ (announced_stopping ∷ called_stop ∷ []);
}

-- The `finally`: the deadline is cleared.
unfoldable pub finish : Bool → Handler → Handler
finish stopped s = record s { phase = finished stopped; armed = false }

-- The hard deadline passes.
unfoldable pub fire : Handler → Handler
fire s =
    if s.armed
    then record s { armed = false; actions = s.actions ++ called_hard_deadline ∷ [] }
    else s

module _ (options : ShutdownOptions) where
  unfoldable pub begin_drain : Handler → Handler
  begin_drain s = record s {
    phase = draining;
    armed = ltb 0 options.hard_deadline_ms;
    actions = s.actions ++ announced_draining ∷ began_drain ∷ [];
  }

  unfoldable pub begin : Handler → Handler
  unfolding begin_stop begin_drain
  begin s = if ltb 0 options.drain_delay_ms then begin_drain s else begin_stop (begin_drain s)

  -- One happening in a phase; what is not awaited does not happen.
  unfoldable pub advance : Phase → Happening → Handler → Handler
  unfolding begin begin_stop finish fire
  advance idle signal s = begin s
  advance draining delay_over s = begin_stop s
  advance stopping (stop_settled true) s = record s {
    phase = leaving;
    actions = s.actions ++ (announced_stopped ∷ called_on_stopped ∷ []);
  }
  advance stopping (stop_settled false) s = finish false s
  advance leaving on_stopped_settled s = finish true s
  advance phase deadline s = fire s
  advance _ _ s = s

  unfoldable pub handle : List Happening → Handler → Handler
  unfolding advance
  handle [] s = s
  handle (h ∷ happenings) s = handle happenings (advance s.phase h s)
