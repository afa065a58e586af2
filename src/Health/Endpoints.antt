-- ===== src/Health/Endpoints.antt =====
-- packages/tsed-health/src/HealthController.ts, HealthCheckService.ts and ShutdownState.ts, over a
-- registry that nobody else asks meanwhile. The world W passes while the checks run, and between the two evaluations of
-- `HealthCheckService` by `pause`; it shows the time and the ends of the races.
use iot_miniservers.Prelude.{ℕ, Bool, true, not, Option, none, some, List, Text, if◌then◌else◌}
use iot_miniservers.Health.Report.{HealthStatus, pass, fail, is_fail, HealthReport, build_report}
use iot_miniservers.Health.Registry.{
  HealthEvaluation, Race, Registry, fresh, join, complete, run_all,
}

-- `ShutdownState`
pub record ShutdownState : Type 0 where
  pub draining : Bool

unfoldable pub begin_drain_state : ShutdownState → ShutdownState
begin_drain_state s = record s { draining = true }

pub record HealthConfig : Type 0 where
  pub cache_ttl : ℕ
  pub expose_detail : Bool

pub record Response : Type 0 where
  pub code : ℕ
  pub body : HealthReport

abbrev pub status_only : HealthStatus → HealthReport
status_only status = record { status = status; checks = none }

-- The world, with the registry in it.
pub record Process (W : Type 0) : Type 0 where
  pub world : W
  pub registry : Registry

-- `live`
abbrev pub live : Response
live = record { code = 200; body = status_only pass }

abbrev pub drain_response : Response
drain_response = record { code = 503; body = status_only fail }

module _ {W : Type 0} (config : HealthConfig) (now : W → ℕ)
    (checks : W → List (Text × Bool × Race) × W) where
  -- `HealthRegistry.evaluate`, of a caller that shares its run with nobody.
  abbrev pub evaluate_on : Option HealthEvaluation → Process W → HealthEvaluation × Process W
  evaluate_on (some value) s = (value, s)
  evaluate_on none s =
      let (races, w) = checks s.world in
      let value = run_all races in
      (value, record { world = w; registry = (complete (now w) value (join 0 s.registry)).1 })

  unfoldable pub evaluate_alone : Process W → HealthEvaluation × Process W
  evaluate_alone s = evaluate_on (fresh config.cache_ttl (now s.world) s.registry.cached) s

  -- `HealthRegistry.report`
  unfoldable pub report : Process W → HealthReport × Process W
  unfolding evaluate_alone
  report s =
      let (value, s') = evaluate_alone s in (build_report value.evaluated config.expose_detail, s')

  -- `HealthCheckService.evaluate`: each of the two evaluations reads the time of its own.
  unfoldable pub service_evaluate : (W → W) → Process W → (Bool × HealthReport) × Process W
  unfolding evaluate_alone report
  service_evaluate pause s =
      let (value, s') = evaluate_alone s in
      let (r, s'') = report (record s' { world = pause s'.world }) in ((value.ready, r), s'')

  unfoldable pub get_ready : (W → W) → ShutdownState → Process W → Response × Process W
  unfolding service_evaluate
  get_ready pause shutdown s =
      let ((is_up, r), s') = service_evaluate pause s in
      if shutdown.draining
      then (drain_response, s)
      else (record { code = if not is_up then 503 else 200; body = status_only r.status }, s')

  unfoldable pub get_detail : ShutdownState → Process W → Response × Process W
  unfolding report
  get_detail shutdown s =
      let (r, s') = report s in
      if shutdown.draining
      then (drain_response, s)
      else (record { code = if is_fail r.status then 503 else 200; body = r }, s')
