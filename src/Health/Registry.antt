-- ===== src/Health/Registry.antt =====
-- packages/health/src/HealthRegistry.ts: the cache and the run that all callers share. A caller has
-- a number; the clock's times come with the events.
use iot_miniservers.Prelude.{
  ℕ, ◌+◌, Bool, true, false, Option, none, some, List, [], ◌∷◌, ◌++◌, Text, text, map, take, length,
  ltb, leb, if◌then◌else◌,
}
use iot_miniservers.Health.Report.{fail, HealthCheckResult, EvaluatedCheck, is_ready}

pub record HealthEvaluation : Type 0 where
  pub ready : Bool
  pub evaluated : List EvaluatedCheck

pub record Cached : Type 0 where
  pub at : ℕ
  pub value : HealthEvaluation

-- How the race between a check and its deadline ends.
pub data Race : Type 0 where
  answered : HealthCheckResult → Race
  timed_out : Race
  thrown : Text → Race

unfoldable pub truncate : Text → Text
truncate detail = if leb (length detail) 120 then detail else take 120 detail

abbrev pub truncated : Option Text → Option Text
truncated none = none
truncated (some detail) = some (truncate detail)

unfoldable pub sanitise : HealthCheckResult → HealthCheckResult
sanitise r = record {
  status = r.status;
  detail = truncated r.detail;
  observed_value = r.observed_value;
}

abbrev pub failed_with : Text → HealthCheckResult
failed_with detail = record { status = fail; detail = some detail; observed_value = none }

-- `runOne`: the name of the check, whether it is critical, and how its race ends.
unfoldable pub run_one : Text × Bool × Race → EvaluatedCheck
unfolding sanitise
run_one (name, critical, answered r) = record {
  name = name;
  critical = critical;
  result = sanitise r;
}
run_one (name, critical, timed_out) = record {
  name = name;
  critical = critical;
  result = sanitise (failed_with (text "timeout"));
}
run_one (name, critical, thrown error) = record {
  name = name;
  critical = critical;
  result = failed_with (truncate error);
}

unfoldable pub run_all : List (Text × Bool × Race) → HealthEvaluation
unfolding run_one
run_all checks = record { ready = is_ready (map run_one checks); evaluated = map run_one checks }

-- `waiting` are the callers that share the run in flight; `runs` and `ended` count the runs.
pub record Registry : Type 0 where
  pub in_flight : Bool
  pub cached : Option Cached
  pub waiting : List ℕ
  pub runs : ℕ
  pub ended : ℕ

pub data Event : Type 0 where
  asked : ℕ → ℕ → Event
  settled : ℕ → HealthEvaluation → Event

abbrev pub fresh : ℕ → ℕ → Option Cached → Option HealthEvaluation
fresh ttl now none = none
fresh ttl now (some c) = if ltb now (c.at + ttl) then some c.value else none

-- `this.inFlight ??= this.runAll()`, and the caller waits.
unfoldable pub join : ℕ → Registry → Registry
join caller s =
    if s.in_flight
    then record s { waiting = caller ∷ s.waiting }
    else record s { in_flight = true; waiting = caller ∷ s.waiting; runs = s.runs + 1 }

-- The run in flight ends: its promise settles for everyone who shares it.
unfoldable pub complete : ℕ → HealthEvaluation → Registry → List (ℕ × HealthEvaluation) × Registry
complete at value s =
    if s.in_flight
    then (
      map (λ caller. (caller, value)) s.waiting,
      record s {
        in_flight = false;
        cached = some (record { at = at; value = value });
        waiting = [];
        ended = s.ended + 1;
      },
    )
    else ([], s)

module _ (ttl : ℕ) where
  -- `evaluate` of a caller: the answer at once, or a place among those who wait.
  unfoldable pub evaluate : ℕ → ℕ → Registry → List (ℕ × HealthEvaluation) × Registry
  evaluate caller now s = elim (fresh ttl now s.cached) [
    | some value ↦ ((caller, value) ∷ [], s)
    | none ↦ ([], join caller s)
  ]

  unfoldable pub handle_event : Event → Registry → List (ℕ × HealthEvaluation) × Registry
  unfolding evaluate complete
  handle_event (asked caller now) s = evaluate caller now s
  handle_event (settled at value) s = complete at value s

  unfoldable pub handle_events : List Event → Registry → List (ℕ × HealthEvaluation) × Registry
  unfolding handle_event
  handle_events [] s = ([], s)
  handle_events (event ∷ events) s =
      let (answers, s') = handle_event event s in
      let (later, s'') = handle_events events s' in (answers ++ later, s'')
