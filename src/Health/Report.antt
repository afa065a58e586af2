-- ===== src/Health/Report.antt =====
-- packages/health/src: HealthStatus.enum.ts, HealthCheck.ts and report.ts. An observed value is a
-- whole number.
use iot_miniservers.Prelude.{
  ℕ, ◌≡◌, refl, Bool, true, false, not, ◌&&◌, ◌||◌, Option, none, some, List, [], ◌∷◌, Text, arith,
  any, every, map, if◌then◌else◌, text_eq,
}
use iot_miniservers.Prelude.Dict
use iot_miniservers.Prelude.Dict.{Dict}

pub data HealthStatus : Type 0 where
  pass warn fail : HealthStatus

pub record HealthCheckResult : Type 0 where
  pub status : HealthStatus
  pub detail : Option Text
  pub observed_value : Option ℕ

pub record EvaluatedCheck : Type 0 where
  pub name : Text
  pub critical : Bool
  pub result : HealthCheckResult

-- `checks` is absent where the configuration hides it.
pub record HealthReport : Type 0 where
  pub status : HealthStatus
  pub checks : Option (Dict Text HealthCheckResult)

abbrev pub is_fail : HealthStatus → Bool
is_fail fail = true
is_fail _ = false

abbrev pub is_degraded : HealthStatus → Bool
is_degraded pass = false
is_degraded _ = true

unfoldable pub is_ready : List EvaluatedCheck → Bool
is_ready evaluated = every (λ c. not c.critical || not (is_fail c.result.status)) evaluated

unfoldable pub roll_up : List EvaluatedCheck → HealthStatus
roll_up evaluated =
    if not (is_ready evaluated)
    then fail
    else if any (λ c. is_degraded c.result.status) evaluated
    then warn
    else pass

-- The loop that fills the record of checks.
unfoldable pub checks_from :
    List EvaluatedCheck → Dict Text HealthCheckResult → Dict Text HealthCheckResult
checks_from [] table = table
checks_from (c ∷ evaluated) table = checks_from evaluated (Dict.insert c.name c.result table)

unfoldable pub build_report : List EvaluatedCheck → Bool → HealthReport
unfolding checks_from
build_report evaluated include_checks = record {
  status = roll_up evaluated;
  checks = if include_checks then some (checks_from evaluated []) else none;
}

-- What one check weighs: the failure of a check that is not critical is a warning.
abbrev pub weight : EvaluatedCheck → HealthStatus
weight c = if is_fail c.result.status && not c.critical then warn else c.result.status

abbrev pub worse : HealthStatus → HealthStatus → HealthStatus
worse fail b = fail
worse warn fail = fail
worse warn _ = warn
worse pass b = b

abbrev pub worst : List HealthStatus → HealthStatus
worst [] = pass
worst (a ∷ others) = worse a (worst others)

roll_up-cons :
    (c : EvaluatedCheck) (cs : List EvaluatedCheck) (status : HealthStatus)
    → c.result.status ≡ status
    → roll_up (c ∷ cs) ≡ worse (weight c) (roll_up cs)
unfolding roll_up is_ready
roll_up-cons c cs pass h = rw h (ground arith)
roll_up-cons c cs warn h = rw h (ground arith)
roll_up-cons c cs fail h = rw h (ground arith)

-- The status of a report is the worst of what its checks weigh, and `pass` for no check.
roll_up-worst : (cs : List EvaluatedCheck) → roll_up cs ≡ worst (map weight cs)
unfolding roll_up is_ready
roll_up-worst [] = refl
roll_up-worst (c ∷ cs) = rw (roll_up-cons c cs c.result.status refl, roll_up-worst cs) refl
