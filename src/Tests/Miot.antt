-- ===== src/Tests/Miot.antt =====
-- packages/miot-device at concrete inputs. The world is a clock.
use iot_miniservers.Prelude.{
  ℕ, ◌+◌, ◌≡◌, ◌⊎◌, refl, none, some, List, [], ◌∷◌, ◌++◌, Text, text, length, if◌then◌else◌,
  nat_eqb,
}
use iot_miniservers.Prelude.Int.{ℤ}
use iot_miniservers.Prelude.Result.{Result, ok, err}
use iot_miniservers.Miot.Error.{
  get_properties, Thrown, miot_error, other_error, after_stamp_refresh, handshake,
}
use iot_miniservers.Miot.Device.{
  StampState, Env, MiotDevice, Operation, run_once, run_with_stamp, run_with_fresh_stamp,
  run_cached, require_device_id, load_stamp, update_stamp, persist_stamp,
}
use iot_miniservers.Miot.Device.Retry.{stamps, is_ok, after_handshake, run_with_stamp-stamps}
use iot_miniservers.Miot.Device.Outcomes.{Retried, run_with_stamp-err}
use iot_miniservers.Miot.Transport.{PropertyId, MiotResponse, Request, timed_out, start, step}
use iot_miniservers.Miot.Transport.Commands.{get_each, get_from}
use iot_miniservers.Miot.Transport.Settling.{IsSound, start-IsSound, step-IsSound}
use iot_miniservers.Miot.Transport.Stamps.{logged, packets}

abbrev env : Env ℕ
env = record {
  handshake = λ w. (ok (record { device_id = 7; stamp = 100 }), w + 1);
  now = λ w. (w, w + 1);
  stamp_store = none;
  show = λ n. [];
}

-- The stamp 6 is stale.
abbrev picky : Operation ℕ ℕ
picky stamp id w =
    (if nat_eqb stamp 6 then err (other_error (text "stale")) else ok (42, none), w + 1)

-- Nothing is ever answered.
abbrev deaf : Operation ℕ ℕ
deaf stamp id w = (err (other_error (text "busy")), w + 1)

abbrev cached : StampState
cached = record { stamp = 5; updated_at = 0 }

abbrev device : MiotDevice ℕ
device = record { device_id = some 7; stamp_state = some cached; world = 0; calls = [] }

run_with_stamp-stamps_example :
    stamps (run_with_stamp env get_properties picky device).1.calls
    ≡ stamps device.calls
      ++ 6
        ∷ (if is_ok (run_once env get_properties picky 6 7 device).0
            then []
            else after_handshake env get_properties picky
                (env.handshake (run_once env get_properties picky 6 7 device).1.world).0)
run_with_stamp-stamps_example =
    run_with_stamp-stamps env get_properties picky device 7 cached refl refl

picky_returns : (run_with_stamp env get_properties picky device).0 ≡ ok 42
unfolding run_with_stamp run_cached run_once run_with_fresh_stamp require_device_id load_stamp
    update_stamp persist_stamp
picky_returns = refl

abbrev wrapped : Thrown
wrapped = miot_error (
    unfold after_stamp_refresh in
    after_stamp_refresh env.show (other_error (text "busy")) get_properties 7)

deaf_throws : (run_with_stamp env get_properties deaf device).0 ≡ err wrapped
unfolding run_with_stamp run_cached run_once run_with_fresh_stamp require_device_id load_stamp
    update_stamp persist_stamp after_stamp_refresh
deaf_throws = refl

run_with_stamp-err_example :
    (w : ℕ) × (((env.handshake w).0 ≡ err wrapped) ⊎ Retried env get_properties deaf 7 w wrapped)
run_with_stamp-err_example =
    run_with_stamp-err env get_properties deaf device 7 cached wrapped refl refl deaf_throws

abbrev late : Thrown
late = other_error (text "late")

abbrev accept : List ℕ → Result Thrown ℕ
accept bytes = ok (length bytes)

step-IsSound_example : IsSound handshake late accept (step handshake late accept timed_out start)
step-IsSound_example =
    step-IsSound handshake late accept timed_out start (start-IsSound handshake late accept)

abbrev show : ℤ → Text
show n = []

abbrev silent : ℕ → ℕ → Request → ℕ → Result Thrown MiotResponse × ℕ
silent id stamp request w = (ok (record { id = 1; result = none; error = none }), w)

abbrev two_props : List PropertyId
two_props = record { siid = 2; piid = 1 } ∷ record { siid = 2; piid = 2 } ∷ []

two_read :
    get_each show (logged show silent) 7 10 two_props (0, [])
    ≡ (ok ([], 11), (0, packets show silent 10 two_props))
unfolding get_each get_from
two_read = refl
