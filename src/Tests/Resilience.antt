-- ===== src/Tests/Resilience.antt =====
-- packages/resilience at concrete inputs. The world is a clock of the calls made.
use iot_miniservers.Prelude.{
  ℕ, ◌+◌, ◌≡◌, refl, true, false, Option, none, some, [], ◌∷◌, text, ltb, if◌then◌else◌,
}
use iot_miniservers.Prelude.Dict
use iot_miniservers.Prelude.Result.{ok, err}
use iot_miniservers.Resilience.Policy.{
  failed, attempted, retried, RetryConfig, Surroundings, Call, execute_with_retries, execute_from,
  after_attempt, execute_with_parent_cancellation, wait_for_retry_backoff,
}
use iot_miniservers.Resilience.Factory.{Factory, get_policy}

abbrev env : Surroundings ℕ ℕ
env = record {
  aborted = λ w. false;
  microtask = λ w. w;
  delay = λ ms w. w + ms;
  should_handle = λ e. true;
}

abbrev retry : RetryConfig
retry = record { count = 2; backoff_ms = 100 }

-- The dependency is up again from 150 on.
abbrev flaky : Call ℕ ℕ ℕ
flaky w = (if ltb w 150 then err (failed w) else ok w, w + 1)

third_time :
    execute_with_retries env (λ call. call) true retry flaky 0
    ≡ some (record {
      result = ok 202;
      world = 203;
      notes = attempted ∷ retried 1 100 ∷ attempted ∷ retried 2 100 ∷ attempted ∷ [];
    })
unfolding execute_with_retries execute_from after_attempt execute_with_parent_cancellation
    wait_for_retry_backoff
third_time = refl

-- A policy that tells how it was made.
abbrev make_policy : ℕ → Option ℕ → ℕ
make_policy config none = config
make_policy config (some options) = config + options

abbrev policies : Factory ℕ ℕ ℕ
policies = record {
  policies = [];
  config = (text "spec-api", 5) ∷ [];
  options = (text "spec-api", 40) ∷ [];
  made = 0;
}

spec_api : (get_policy make_policy (text "spec-api") policies).0 ≡ ok 45
unfolding get_policy Dict.get
spec_api = refl
