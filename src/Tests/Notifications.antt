-- ===== src/Tests/Notifications.antt =====
-- The subscriptions of apis/miot-bridge-api: one device, whose properties "on" and "mode" can be read.
use iot_miniservers.Prelude.{ℕ, ◌≡◌, refl, true, false, none, some, List, [], ◌∷◌, text, replicate}
use iot_miniservers.Prelude.Dict
use iot_miniservers.Prelude.Result.{ok}
use iot_miniservers.Bridge.Commands.{MiotProperty, SimplifiedMiotSpec, read, from_spec}
use iot_miniservers.Bridge.Poller.{
  PollingConfig, init, load_subscriptions, add_subscriptions, remove_subscription,
  remove_all_subscriptions,
}
use iot_miniservers.Bridge.Poller.Polling.{start}
use iot_miniservers.Bridge.Notifications.{
  World, Services, boot, post, check_properties, create_all, create, delete, delete_all,
  delete_all_by_device_id, get_by_id, delete_by_id,
}
use iot_miniservers.Bridge.Notifications.Effects.{is_subscribed, is_stored}
use iot_miniservers.Bridge.Notifications.Agreement.{Agrees}
use iot_miniservers.Bridge.Notifications.Requests.{
  Request, posted, deleted, all_deleted, serve_all, are_clean, serve_all-boot, delete-twin,
}

abbrev readable : MiotProperty ℕ
readable = record { siid = 2; piid = 1; access = read ∷ []; values = []; source = from_spec }

abbrev spec : SimplifiedMiotSpec ℕ
spec = record {
  name = text "lamp";
  type_urn = text "urn";
  properties = (text "on", readable) ∷ (text "mode", readable) ∷ [];
  actions = [];
}

abbrev services : Services ℕ
services = record { fault = λ n. none; uuid = λ n. replicate n 65; spec_of = λ id. ok (some spec) }

abbrev config : PollingConfig
config = record {
  enabled = some true;
  interval_ms = 1000;
  dispatch_on_change = true;
  max_error_count = 3;
  error_skip_cycles = 20;
  trace_interval_ms = none;
}

abbrev before : World ℕ
before = record {
  rows = record { id = text "x"; device_id = text "d"; property = text "on" } ∷ [];
  uses = 0;
  poller = init;
}

abbrev requests : List Request
requests =
    posted (text "d") (text "mode" ∷ [])
    ∷ deleted (text "d") (text "x")
    ∷ all_deleted (text "e")
    ∷ []

requests-clean :
    are_clean services requests (boot services (λ c. true) (some config) before).1 ≡ true
unfolding are_clean boot start load_subscriptions init post check_properties create_all create
    delete delete_all delete_all_by_device_id get_by_id delete_by_id add_subscriptions
    remove_subscription remove_all_subscriptions Dict.get Dict.insert Dict.remove
requests-clean = refl

serve_all-boot_example :
    Agrees (serve_all services requests (boot services (λ c. true) (some config) before).1)
serve_all-boot_example =
    serve_all-boot services (λ n. refl) (λ c. true) config requests before refl requests-clean

-- A second notification for the same property.
abbrev twins : World ℕ
twins = record before {
  rows =
      record { id = text "x"; device_id = text "d"; property = text "on" }
      ∷ record { id = text "y"; device_id = text "d"; property = text "on" }
      ∷ [];
}

delete-twin_example :
    ((delete services (text "d") (text "x") twins).0 ≡ ok tt)
    × (is_subscribed (text "d") (text "on") (delete services (text "d") (text "x") twins).1.poller
        ≡ false)
    × (is_stored (text "d") (text "on") (delete services (text "d") (text "x") twins).1.rows ≡ true)
delete-twin_example =
    delete-twin services (λ n. refl) (text "d") (text "x")
      (record { id = text "x"; device_id = text "d"; property = text "on" }) twins refl refl refl
