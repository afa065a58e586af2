-- ===== src/Health/Breaker.antt =====
-- packages/health/src/checks/breakerCheck.ts. An `unknown` state is one that the table does not list.
use iot_miniservers.Prelude.{
  ◌≡◌, refl, Bool, false, Option, none, some, or_else, List, ◌∷◌, Text, text,
}
use iot_miniservers.Health.Report.{
  HealthStatus, pass, warn, fail, HealthCheckResult, EvaluatedCheck, is_ready,
}
use iot_miniservers.Health.Registry.{Race, answered, run_one}

pub data CircuitState : Type 0 where
  closed opened half_open isolated unknown : CircuitState

abbrev pub degraded : HealthStatus → Text → HealthCheckResult
degraded status detail = record { status = status; detail = some detail; observed_value = none }

unfoldable pub circuit_result : CircuitState → HealthCheckResult
circuit_result closed = record { status = pass; detail = none; observed_value = none }
circuit_result opened = degraded fail (text "circuit-open")
circuit_result half_open = degraded warn (text "circuit-half-open")
circuit_result isolated = degraded fail (text "circuit-isolated")
circuit_result unknown = degraded warn (text "circuit-unknown")

-- The name of the check, whether it is critical, and how its run ends.
unfoldable pub breaker_check : Text → CircuitState → Option Bool → Text × Bool × Race
breaker_check name state critical = (name, or_else critical false, answered (circuit_result state))

-- A breaker never makes a service unready on its own, whatever its state.
breaker_check-is_ready :
    (name : Text) (state : CircuitState) (others : List EvaluatedCheck)
    → is_ready (run_one (breaker_check name state none) ∷ others) ≡ is_ready others
unfolding breaker_check run_one is_ready
breaker_check-is_ready name state others = refl
