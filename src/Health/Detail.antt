-- ===== src/Health/Detail.antt =====
-- What a health report may tell of a check.
use iot_miniservers.Prelude.{
  ℕ, ◌≡◌, refl, Bool, true, Option, none, some, List, [], ◌∷◌, Text, text, arith, map, take, every,
  length, length-take, leb, if◌then◌else◌,
}
use iot_miniservers.Health.Report.{HealthCheckResult}
use iot_miniservers.Health.Registry.{
  Race, answered, timed_out, thrown, truncate, sanitise, failed_with, run_one, run_all,
}

cut_fits : (n : ℕ) (xs : Text) → leb (length (if leb (length xs) n then xs else take n xs)) n ≡ true
cut_fits n xs = ground (arith, length-take n xs)

abbrev pub fits : Option Text → Bool
fits none = true
fits (some detail) = leb (length detail) 120

truncate-fits : (detail : Text) → fits (some (truncate detail)) ≡ true
unfolding truncate
truncate-fits detail = cut_fits 120 detail

sanitise-fits :
    (r : HealthCheckResult) (detail : Option Text)
    → r.detail ≡ detail
    → fits (sanitise r).detail ≡ true
unfolding sanitise
sanitise-fits r none h = rw h refl
sanitise-fits r (some detail) h = rw h (truncate-fits detail)

run_one-fits : (check : Text × Bool × Race) → fits (run_one check).result.detail ≡ true
unfolding run_one
run_one-fits (name, critical, answered r) = sanitise-fits r r.detail refl
run_one-fits (name, critical, timed_out) =
    sanitise-fits (failed_with (text "timeout")) (some (text "timeout")) refl
run_one-fits (name, critical, thrown error) = truncate-fits error

every-fits :
    (checks : List (Text × Bool × Race))
    → every (λ c. fits c.result.detail) (map run_one checks) ≡ true
every-fits [] = refl
every-fits (check ∷ checks) = rw (run_one-fits check) (every-fits checks)

-- However a check ends, by an answer, its deadline or an error, the detail that is told of it has
-- at most 120 characters.
run_all-fits :
    (checks : List (Text × Bool × Race))
    → every (λ c. fits c.result.detail) (run_all checks).evaluated ≡ true
unfolding run_all
run_all-fits checks = every-fits checks
