-- ===== src/Tests/Bridge.antt =====
-- apis/miot-bridge-api at concrete inputs. Values are numbers.
use iot_miniservers.Prelude.{
  ℕ, ◌≡◌, refl, Bool, true, false, none, some, List, [], ◌∷◌, Text, text, arith, leb, nat_eq, map,
}
use iot_miniservers.Prelude.Int.{pos, negsuc}
use iot_miniservers.Prelude.Dict
use iot_miniservers.Prelude.Result.{ok, err}
use iot_miniservers.Bridge.Poller.{
  PollingConfig, PollTarget, Poller, Reading, due_devices, publish, publish_all, read_device,
}
use iot_miniservers.Bridge.Poller.Polling.{Answer, tick, stopped}
use iot_miniservers.Bridge.Poller.Backoff.{fail_times, rounds, is_due, fail_times-rounds}
use iot_miniservers.Bridge.Poller.Changes.{}
use iot_miniservers.Bridge.Poller.Soundness.{IsSound, tick-IsSound}

abbrev config : PollingConfig
config = record {
  enabled = some true;
  interval_ms = 5000;
  dispatch_on_change = true;
  max_error_count = 2;
  error_skip_cycles = 3;
  trace_interval_ms = none;
}

abbrev allowed : PollingConfig → Bool
allowed c = true

abbrev lamp : Text
lamp = text "lamp"

abbrev idle : Poller ℕ
idle = record {
  timer = true;
  ticking = false;
  subscriptions = (lamp, text "on" ∷ []) ∷ [];
  last_values = [];
  error_counts = [];
  skip_cycles = [];
  last_traced_at = 0;
}

-- A lamp that is on and refuses to tell its brightness.
abbrev readings : List (Reading ℕ)
readings =
    record { key = text "on"; value = some 1; code = pos 0 }
    ∷ record { key = text "brightness"; value = none; code = negsuc 3 }
    ∷ []

one_event :
    map (λ e. e.new_value) (read_device allowed (some config) 9 lamp (ok (4, readings)) idle).2
    ≡ some 1 ∷ []
unfolding read_device publish_all publish Dict.get Dict.insert
one_event = refl

fail_times-rounds_example :
    is_due lamp (due_devices (rounds 2 (fail_times (some config) lamp 2 idle))).0 ≡ leb 3 2
unfolding Dict.get
fail_times-rounds_example =
    fail_times-rounds (some config) lamp (text "on" ∷ []) 2 1 idle (refl, tt) refl refl refl

-- The lamp does not answer, and the poller is stopped meanwhile.
abbrev answers : PollTarget → Answer ℕ
answers t = record {
  waiting = stopped ∷ [];
  config = some config;
  now = 9;
  reply = err (text "timeout");
}

abbrev due_lamp : PollTarget
due_lamp = record { device_id = lamp; properties = text "on" ∷ [] }

idle-IsSound : IsSound 2 idle
unfolding Dict.get
idle-IsSound = record { distinct = (refl, tt); bounded = λ d. omega arith }

tick-IsSound_example : IsSound 2 (tick allowed answers (some config) 9 idle).2
tick-IsSound_example = tick-IsSound 2 allowed answers (λ t. refl) (some config) 9 idle idle-IsSound
