-- ===== src/Tests/Health.antt =====
-- packages/health at concrete inputs.
use iot_miniservers.Prelude.{
  some, ℕ, ◌+◌, ◌≡◌, refl, List, Text, Bool, if◌then◌else◌, nat_eqb, true, false, none, [], ◌∷◌,
  text,
}
use iot_miniservers.Health.Report.{
  HealthCheckResult, EvaluatedCheck, pass, warn, fail, build_report, checks_from, roll_up, is_ready,
}
use iot_miniservers.Health.Registry.{
  HealthEvaluation, Registry, Race, answered, join, run_one, sanitise, asked, settled, run_all,
  complete, handle_events,
}
use iot_miniservers.Health.Sharing.{
  IsShared, tally, asks, answered_to, handle_events-IsShared, handle_events-waiting,
}
use iot_miniservers.Health.Shutdown.{
  ShutdownOptions, Handler, idle, signal, delay_over, deadline, handle,
}
use iot_miniservers.Health.Endpoints.{
  ShutdownState, HealthConfig, Process, get_ready, service_evaluate, evaluate_alone, report,
}
use iot_miniservers.Health.Draining.{IsOrderly, handle-IsOrderly}

abbrev broken : HealthCheckResult
broken = record { status = fail; detail = none; observed_value = none }

-- A failing check that gates nothing.
abbrev optional_down : EvaluatedCheck
optional_down = record { name = text "api"; critical = false; result = broken }

degraded : roll_up (optional_down ∷ []) ≡ warn
unfolding roll_up is_ready
degraded = refl

abbrev healthy : HealthEvaluation
healthy = record { ready = true; evaluated = [] }

abbrev resting : Registry
resting = record { in_flight = false; cached = none; waiting = []; runs = 0; ended = 0 }

resting-IsShared : IsShared resting
resting-IsShared = record { one_run = refl; no_wait = λ k. refl }

handle_events-IsShared_example :
    IsShared
      (handle_events 5 (asked 1 0 ∷ asked 2 1 ∷ settled 3 healthy ∷ asked 3 9 ∷ []) resting).1
handle_events-IsShared_example =
    handle_events-IsShared 5 (asked 1 0 ∷ asked 2 1 ∷ settled 3 healthy ∷ asked 3 9 ∷ []) resting
      resting-IsShared

handle_events-waiting_example :
    tally 1
        (answered_to (handle_events 5 (asked 1 0 ∷ settled 3 healthy ∷ asked 1 4 ∷ []) resting).0)
      + tally 1 (handle_events 5 (asked 1 0 ∷ settled 3 healthy ∷ asked 1 4 ∷ []) resting).1.waiting
    ≡ 0 + asks 1 (asked 1 0 ∷ settled 3 healthy ∷ asked 1 4 ∷ [])
handle_events-waiting_example =
    handle_events-waiting 5 1 (asked 1 0 ∷ settled 3 healthy ∷ asked 1 4 ∷ []) resting

abbrev busy : Registry
busy = record { in_flight = true; cached = none; waiting = 1 ∷ []; runs = 1; ended = 0 }

abbrev waits : ShutdownOptions
waits = record { drain_delay_ms = 5000; hard_deadline_ms = 100 }

abbrev running : Handler
running = record { phase = idle; armed = false; actions = [] }

running-IsOrderly : IsOrderly running
running-IsOrderly = record { planned = refl; disarmed = λ k. refl }

handle-IsOrderly_example :
    IsOrderly (handle waits (signal ∷ deadline ∷ signal ∷ delay_over ∷ []) running)
handle-IsOrderly_example =
    handle-IsOrderly waits (signal ∷ deadline ∷ signal ∷ delay_over ∷ []) running running-IsOrderly

abbrev fine : HealthCheckResult
fine = record { status = pass; detail = none; observed_value = none }

-- The checks count how often they have run, and fail the second time.
abbrev once_up : ℕ → List (Text × Bool × Race) × ℕ
once_up n = ((text "db", true, answered (if nat_eqb n 0 then fine else broken)) ∷ [], n + 1)

abbrev process : Process ℕ
process = record {
  world = 0;
  registry = record { in_flight = false; cached = none; waiting = []; runs = 0; ended = 0 };
}

abbrev serving : ShutdownState
serving = record { draining = false }

abbrev keeping : HealthConfig
keeping = record { cache_ttl = 1000; expose_detail = true }

-- The checks are up, a millisecond ago.
abbrev just_up : Process ℕ
just_up = record process {
  world = 999;
  registry = record process.registry { cached = some (record { at = 0; value = healthy }) };
}

-- The cache expires between the two evaluations, and the status contradicts the code.
expired_between :
    (get_ready keeping (λ n. n) once_up (λ n. n + 1) serving just_up).0
    ≡ record { code = 200; body = record { status = fail; checks = none } }
unfolding get_ready service_evaluate evaluate_alone report build_report run_all run_one sanitise
    roll_up is_ready complete join checks_from
expired_between = refl

abbrev forgetting : HealthConfig
forgetting = record { cache_ttl = 0; expose_detail = true }

-- Without a cache the checks run twice, and the status may contradict the code.
up_and_failing :
    (get_ready forgetting (λ n. n) once_up (λ n. n) serving process).0
    ≡ record { code = 200; body = record { status = fail; checks = none } }
unfolding get_ready service_evaluate evaluate_alone report build_report run_all run_one sanitise
    roll_up is_ready complete join checks_from
up_and_failing = refl
