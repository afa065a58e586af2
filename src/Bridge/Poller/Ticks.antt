-- ===== src/Bridge/Poller/Ticks.antt =====
-- A whole tick: what it polls, and whether there is another one behind it.
use iot_miniservers.Prelude.{Bool, true, false, not, Text, any, Eq}
use iot_miniservers.Prelude.Result.{Result, ok, err}
use iot_miniservers.Bridge.Poller.{PollTarget, PollingConfig, Poller, JobOutcome, success, failure}
use iot_miniservers.Bridge.Poller.Polling.{Answer, Interruption, stopped}

abbrev pub is_stop : Interruption → Bool
is_stop stopped = true
is_stop _ = false

-- A read is a success exactly when the device answered.
abbrev pub outcome_of : {A : Type 0} → Result Text A → JobOutcome
outcome_of (ok a) = success
outcome_of (err m) = failure

module _ {V : Type 0} where
  module _ ⦃e : Eq V⦄ (is_enabled : PollingConfig → Bool) where
    module _ (answers : PollTarget → Answer V) where
      -- No call that came in while the target was read has stopped the poller.
      abbrev pub goes_on : PollTarget → Bool
      goes_on t = not (any is_stop (answers t).waiting)

      abbrev pub outcome : PollTarget → JobOutcome
      outcome t = outcome_of (answers t).reply
