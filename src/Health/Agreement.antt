-- ===== src/Health/Agreement.antt =====
-- The code of a health endpoint and the status that it answers with.
use iot_miniservers.Prelude.{ℕ, ◌≡◌, Bool, Option, none, some, List, Text, if◌then◌else◌}
use iot_miniservers.Health.Report.{is_fail, is_ready}
use iot_miniservers.Health.Registry.{Race, Cached, Registry}
use iot_miniservers.Health.Endpoints.{HealthConfig, Response, Process, evaluate_alone}

-- The cache holds what a run of checks has come to.
abbrev pub CacheHolds : Option Cached → Type 0
CacheHolds none = Unit {0}
CacheHolds (some c) = c.value.ready ≡ is_ready c.value.evaluated

abbrev pub Agrees : Response → Type 0
Agrees r = r.code ≡ (if is_fail r.body.status then 503 else 200)

module _ {W : Type 0} (config : HealthConfig) (now : W → ℕ)
    (checks : W → List (Text × Bool × Race) × W) where
  module _ (pause : W → W) where
    -- The time that the second evaluation of readiness reads.
    abbrev later : Process W → ℕ
    later s = now (pause (evaluate_alone config now checks s).1.world)
