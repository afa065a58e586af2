-- ===== src/Bridge/Notifications/Requests.antt =====
-- apis/miot-bridge-api/src/handlers/notifications: requests one after the other, and the one that takes
-- the poller and the file apart.
use iot_miniservers.Prelude.{
  ℕ, ◌+◌, ◌≡◌, refl, sym, ap, ◌∙◌, Bool, true, false, not, ◌&&◌, Option, none, some, List, [], ◌∷◌,
  Text, text_eq, any, filter, find, arith, ◌==◌,
}
use iot_miniservers.Prelude.Dict
use iot_miniservers.Prelude.Result.{ok}
use iot_miniservers.Bridge.Poller.{PollingConfig}
use iot_miniservers.Bridge.Notifications.{
  DeviceNotification, World, Services, post, delete, delete_by_id, delete_all, get_by_id, boot,
}
use iot_miniservers.Bridge.Notifications.Effects.{
  is_row, is_stored, is_subscribed, is_subscribed-remove_subscription,
}
use iot_miniservers.Bridge.Notifications.Agreement.{
  Agrees, is_sole, post-Agrees, delete-Agrees, delete_all-Agrees, boot-Agrees,
}

is_stored-filter_twin :
    (d p id : Text) (rows : List DeviceNotification)
    → any (λ m. not (m.id == id) && is_row d p m) rows ≡ true
    → is_stored d p (filter (λ m. not (m.id == id)) rows) ≡ true
is_stored-filter_twin d p id [] h = h
is_stored-filter_twin d p id (m ∷ rows) h = ground (arith, is_stored-filter_twin d p id rows)

abbrev pub is_sole_found : Text → Option DeviceNotification → List DeviceNotification → Bool
is_sole_found id none rows = true
is_sole_found id (some n) rows = is_sole id n rows

-- The requests of the REST handlers.
pub data Request : Type 0 where
  posted : Text → List Text → Request
  deleted : Text → Text → Request
  all_deleted : Text → Request

-- A clean request deletes no notification that is not the only one for its property.
abbrev pub is_clean : {V : Type 0} → Request → World V → Bool
is_clean (posted e ps) w = true
is_clean (deleted e id) w = is_sole_found id (find (λ n. n.id == id) w.rows) w.rows
is_clean (all_deleted e) w = true

module _ {V : Type 0} (services : Services V) where
  abbrev pub serve : Request → World V → World V
  serve (posted e ps) w = (post services e ps w).1
  serve (deleted e id) w = (delete services e id w).1
  serve (all_deleted e) w = (delete_all services e w).1

  unfoldable pub serve_all : List Request → World V → World V
  serve_all [] w = w
  serve_all (r ∷ rs) w = serve_all rs (serve r w)

  unfoldable pub are_clean : List Request → World V → Bool
  are_clean [] w = true
  are_clean (r ∷ rs) w = is_clean r w && are_clean rs (serve r w)

module _ {V : Type 0} (services : Services V) (works : (n : ℕ) → services.fault n ≡ none) where
  serve-Agrees :
      (r : Request) (w : World V) → is_clean r w ≡ true → Agrees w → Agrees (serve services r w)
  serve-Agrees (posted e ps) w clean a = post-Agrees services works e ps w a
  serve-Agrees (deleted e id) w clean a =
      delete-Agrees services works e id w
        (λ n found. ap (λ o. is_sole_found id o w.rows) (sym found) ∙ clean) a
  serve-Agrees (all_deleted e) w clean a = delete_all-Agrees services works e w a

  run-Agrees :
      (rs : List Request) (w : World V)
      → are_clean services rs w ≡ true
      → Agrees w
      → Agrees (serve_all services rs w)
  unfolding serve_all are_clean
  run-Agrees [] w clean a = a
  run-Agrees (r ∷ rs) w clean a =
      run-Agrees rs (serve services r w) (ground arith) (serve-Agrees r w (ground arith) a)

  -- While the file can be used and polling is enabled: after a start and any requests, none of which
  -- deletes a notification that is not the only one for its property, the poller polls a property of a
  -- device exactly if a stored notification asks for it.
  pub serve_all-boot :
      (is_enabled : PollingConfig → Bool) (config : PollingConfig) (rs : List Request) (w : World V)
      → is_enabled config ≡ true
      → are_clean services rs (boot services is_enabled (some config) w).1 ≡ true
      → Agrees (serve_all services rs (boot services is_enabled (some config) w).1)
  serve_all-boot is_enabled config rs w enabled clean =
      run-Agrees rs (boot services is_enabled (some config) w).1 clean
        (boot-Agrees services works is_enabled config w enabled)

  -- Deleting one of several notifications for one property succeeds and stops the polling of that property,
  -- which is still stored.
  pub delete-twin :
      (e id : Text) (n : DeviceNotification) (w : World V)
      → find (λ n. n.id == id) w.rows ≡ some n
      → n.device_id ≡ e
      → any (λ m. not (m.id == id) && is_row e n.property m) w.rows ≡ true
      → ((delete services e id w).0 ≡ ok tt)
        × (is_subscribed e n.property (delete services e id w).1.poller ≡ false)
        × (is_stored e n.property (delete services e id w).1.rows ≡ true)
  unfolding delete get_by_id delete_by_id
  delete-twin e id n w found own twin =
      let own' : (n.device_id == e) ≡ true = (text_eq.beq_iff n.device_id e).1 own in
      rw (works w.uses, found, own', works (w.uses + 1))
        (
          refl,
          is_subscribed-remove_subscription e e n.property n.property w.poller
              ∙ rw (Dict.eq_self e, Dict.eq_self n.property) (ground arith),
          is_stored-filter_twin e n.property id w.rows twin,
        )
