-- ===== src/Tests/Registry.antt =====
-- The registry of clients of apis/miot-bridge-api: two devices, and one that gets a new token.
use iot_miniservers.Prelude.{ℕ, ◌≡◌, refl, none, some, List, [], ◌∷◌, Text, text}
use iot_miniservers.Prelude.Dict
use iot_miniservers.Bridge.Registry.{
  DeviceCache, Event, accessed, removed, used, empty_registry, get_or_create, remove, react_all,
}
use iot_miniservers.Bridge.Registry.Sharing.{device_id_at, get_or_create-shared}

abbrev cache : ℕ → Text → DeviceCache
cache id token = record {
  device_id = id;
  address = text "10.0.0.7";
  token = token;
  stamp = some 41;
  stamp_updated_at = none;
}

abbrev old : DeviceCache
old = cache 7 (text "old")

abbrev new : DeviceCache
new = cache 7 (text "new")

abbrev others : List Event
others =
    removed 9
    ∷ used 1 (λ s. record { device_id = s.device_id; stamp_state = none })
    ∷ accessed (cache 8 (text "x"))
    ∷ []

after_removal : (get_or_create new (remove 7 (get_or_create old empty_registry).1)).0 ≡ 1
unfolding get_or_create remove Dict.get Dict.insert Dict.remove
after_removal = refl

get_or_create-shared_example :
    (device_id_at
        (get_or_create old (react_all (accessed (cache 9 (text "y")) ∷ []) empty_registry)).0
        (get_or_create old
          (react_all (accessed (cache 9 (text "y")) ∷ []) empty_registry)).1.created
      ≡ some 7)
    × (get_or_create new (
          react_all others
            (get_or_create old (react_all (accessed (cache 9 (text "y")) ∷ []) empty_registry)).1)
        ≡ (
          (get_or_create old (react_all (accessed (cache 9 (text "y")) ∷ []) empty_registry)).0,
          react_all others
              (get_or_create old (react_all (accessed (cache 9 (text "y")) ∷ []) empty_registry)).1,
        ))
get_or_create-shared_example =
    get_or_create-shared (accessed (cache 9 (text "y")) ∷ []) others old new refl refl
