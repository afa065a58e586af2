-- ===== src/Bridge/Poller/Polling.antt =====
-- apis/miot-bridge-api/src/services/DevicePropertyPollerService.ts: starting, stopping, and whole
-- ticks with the calls that come in between. `traced` is the value of `shouldTrace`.
use iot_miniservers.Prelude.{
  ℕ, Bool, true, false, Option, none, some, List, [], ◌∷◌, ◌++◌, Text, if◌then◌else◌, Eq, text_eq,
}
use iot_miniservers.Prelude.Int.{int_eq}
use iot_miniservers.Otel.Jobs.{JobOutcome}
use iot_miniservers.Prelude.Result.{Result, ok, err}
use iot_miniservers.Bridge.Poller.{
  PollTarget, Poller, PollingConfig, PropertyChangeEvent, Reading, add_subscriptions, due_devices,
  load_subscriptions, read_device, remove_all_subscriptions, remove_subscription, should_trace,
}

-- What other code may call while a tick waits for a device.
pub data Interruption : Type 0 where
  added : Text → List Text → Interruption
  removed : Text → Text → Interruption
  all_removed : Text → Interruption
  stopped : Interruption

-- What one read of a tick meets: the calls that come in between, the configuration and the time
-- then, and the answer of the device, or the message of what was thrown.
pub record Answer (V : Type 0) : Type 0 where
  pub waiting : List Interruption
  pub config : Option PollingConfig
  pub now : ℕ
  pub reply : Result Text (ℕ × List (Reading V))

-- What `job.run.items` and `job.skip` are told of a tick.
pub data Run : Type 0 where
  overrun : Run
  nothing_due : Run
  polled : Bool → List JobOutcome → Run

module _ {V : Type 0} where
  unfoldable pub stop : Poller V → Poller V
  stop s = record s { timer = false }

  -- `start`: the subscriptions as the storage lists them, or the message of what it throws.
  unfoldable pub start :
      (PollingConfig → Bool)
      → Option PollingConfig
      → Result Text (List (Text × Text))
      → Poller V
      → Result Text (Unit {0}) × Poller V
  start is_enabled none all s = (ok tt, s)
  start is_enabled (some config) all s =
      if is_enabled config
      then elim all [
        | err m ↦ (err m, s)
        | ok pairs ↦ (ok tt, record (load_subscriptions pairs s) { timer = true })
      ]
      else (ok tt, s)

  unfoldable pub interrupt : List Interruption → Poller V → Poller V
  interrupt [] s = s
  interrupt (added device_id properties ∷ calls) s =
      interrupt calls (add_subscriptions device_id properties s)
  interrupt (removed device_id property ∷ calls) s =
      interrupt calls (remove_subscription device_id property s)
  interrupt (all_removed device_id ∷ calls) s =
      interrupt calls (remove_all_subscriptions device_id s)
  interrupt (stopped ∷ calls) s = interrupt calls (stop s)

  module _ ⦃e : Eq V⦄ (is_enabled : PollingConfig → Bool) (answers : PollTarget → Answer V) where
    abbrev pub poll_device :
        PollTarget → Poller V → JobOutcome × Poller V × List (PropertyChangeEvent V)
    poll_device target s =
        let a = answers target in
        read_device is_enabled a.config a.now target.device_id a.reply (interrupt a.waiting s)

    -- The loop of `pollDueDevices`.
    unfoldable pub poll_targets :
        List PollTarget → Poller V → List JobOutcome × Poller V × List (PropertyChangeEvent V)
    poll_targets [] s = ([], s, [])
    poll_targets (target ∷ due) s =
        let (outcome, s', emitted) = poll_device target s in
        let (outcomes, s'', later) = poll_targets due s' in
        (outcome ∷ outcomes, s'', emitted ++ later)

    unfoldable pub poll_due_devices :
        Option PollingConfig → ℕ → Poller V → Run × Poller V × List (PropertyChangeEvent V)
    poll_due_devices config now s =
        let (due, waited) = due_devices s in
        elim due [
          | [] ↦ (nothing_due, waited, [])
          | target ∷ others ↦
              let (traced, s') = should_trace config (target ∷ others) now waited in
              let (outcomes, s'', emitted) = poll_targets (target ∷ others) s' in
              (polled traced outcomes, s'', emitted)
        ]

    -- `tick`: beside the result, whether the next tick has been scheduled.
    unfoldable pub tick :
        Option PollingConfig → ℕ → Poller V → Bool × Run × Poller V × List (PropertyChangeEvent V)
    tick config now s =
        if s.ticking
        then (false, overrun, s, [])
        else (let (run, s', emitted) = poll_due_devices config now (record s { ticking = true }) in
            (s'.timer, run, record s' { ticking = false }, emitted))
