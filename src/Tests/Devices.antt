-- ===== src/Tests/Devices.antt =====
-- The devices of apis/miot-bridge-api: two lamps, whose specifications are numbers.
use iot_miniservers.Prelude.{ℕ, ◌≡◌, refl, List, [], ◌∷◌, text}
use iot_miniservers.Prelude.Result.{ok}
use iot_miniservers.Bridge.Devices.{
  NewDevice, Change, created, File, reads, writes, apply_change, turns,
}
use iot_miniservers.Bridge.Devices.Turns.{turns-overlapping}
use iot_miniservers.Bridge.Devices.Handlers.{DeviceRequest, Discovery, post}
use iot_miniservers.Bridge.Devices.Registration.{
  Request, posted, deleted, IsUnique, Registered, serve_all, post-serve_all,
}

abbrev lamp : ℕ → NewDevice ℕ
lamp k = record {
  device_id = k;
  address = text "10.0.0.7";
  token = text "t";
  stamp = 1;
  stamp_updated_at = 0;
  model = text "lamp";
  spec_url = text "u";
  raw_spec = 0;
}

abbrev file : File ℕ ℕ
file = record { stored = []; open_calls = [] }

abbrev first : Change ℕ ℕ
first = created (text "a") 1 (lamp 7)

abbrev second : Change ℕ ℕ
second = created (text "b") 2 (lamp 8)

-- The first lamp is gone.
turns-overlapping_example :
    (turns (reads 2 second ∷ reads 1 first ∷ writes 1 ∷ writes 2 ∷ []) file).stored
    ≡ apply_change second []
turns-overlapping_example = turns-overlapping 2 second (reads 1 first ∷ writes 1 ∷ []) file refl

-- Every device of an address answers with the id 7.
abbrev discovery : Discovery ℕ ℕ ℕ ℕ
discovery = record {
  handshake = λ request. ok (7, 41);
  fetch_raw = λ model. ok 0;
  map_dto_to_model = λ raw. ok raw;
  get_by_model = λ model. ok 0;
  simplify = λ spec overrides. ok spec;
  spec_url = λ raw. text "u";
}

abbrev request : DeviceRequest
request = record { address = text "10.0.0.7"; token = text "t"; model = text "lamp" }

abbrev earlier : List (Request ℕ)
earlier = posted (text "a") 1 request ∷ deleted (text "c") ∷ []

post-serve_all_example :
    IsUnique (serve_all discovery earlier [])
    × Registered discovery
        (post discovery (text "b") 2 request (serve_all discovery earlier [])).0
        (serve_all discovery earlier [])
        (post discovery (text "b") 2 request (serve_all discovery earlier [])).1
        earlier
post-serve_all_example = post-serve_all discovery earlier (text "b") 2 request earlier
