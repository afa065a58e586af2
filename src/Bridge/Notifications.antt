-- ===== src/Bridge/Notifications.antt =====
-- apis/miot-bridge-api/src/storage/notification-local-storage, services/NotificationStorageService.ts and
-- handlers/notifications: the subscriptions as they are stored in a file, and as the poller holds them. What the
-- file holds is read back as it was written. `fault n` is what the n-th use of the file throws, if it
-- does, and `uuid n` the id that is drawn then; a use that throws leaves the file alone.
pub mod Effects
pub mod Agreement
pub mod Requests
use iot_miniservers.Prelude.{
  ℕ, ◌+◌, ◌≡◌, Bool, true, false, not, ◌&&◌, Option, none, some, List, [], ◌∷◌, ◌++◌, map, Text,
  text_eq, any, find, filter, if◌then◌else◌, ◌==◌,
}
use iot_miniservers.Prelude.Dict
use iot_miniservers.Prelude.Result.{Result, ok, err}
use iot_miniservers.Bridge.Commands.{MiotProperty, SimplifiedMiotSpec, read, write, grants}
use iot_miniservers.Bridge.Poller.{
  PollingConfig, Poller, init, add_subscriptions, remove_subscription, remove_all_subscriptions,
}
use iot_miniservers.Bridge.Poller.Polling.{start}

pub record DeviceNotification : Type 0 where
  pub id : Text
  pub device_id : Text
  pub property : Text

pub data NotificationError : Type 0 where
  device_not_found : Text → NotificationError
  notification_not_found : Text → NotificationError
  not_of_device : Text → Text → NotificationError
  unknown_property : Text → NotificationError
  not_subscribable : Text → NotificationError
  storage_failed : Text → NotificationError

-- The file and the poller.
pub record World (V : Type 0) : Type 0 where
  pub rows : List DeviceNotification
  pub uses : ℕ
  pub poller : Poller V

-- The disk, the ids and the specification of a device with its overrides, as the storage of devices, that of
-- overrides and the mapper give it.
pub record Services (V : Type 0) : Type 0 where
  pub fault : ℕ → Option Text
  pub uuid : ℕ → Text
  pub spec_of : Text → Result Text (Option (SimplifiedMiotSpec V))

abbrev pub M : Type 0 → Type 0 → Type 0
M V A = World V → Result NotificationError A × World V

module _ {V : Type 0} where
  infixl 5 ◌>>=◌
  abbrev pub bind_from :
      {A B : Type 0}
      → Result NotificationError A × World V
      → (A → M V B)
      → Result NotificationError B × World V
  bind_from (ok a, w) f = f a w
  bind_from (err e, w) f = (err e, w)

  abbrev pub ◌>>=◌ : {A B : Type 0} → M V A → (A → M V B) → M V B
  ◌>>=◌ m f w = bind_from (m w) f

  abbrev pub pure : {A : Type 0} → A → M V A
  pure a w = (ok a, w)

  abbrev pub throw : {A : Type 0} → NotificationError → M V A
  throw e w = (err e, w)

abbrev pub pairs_of : List DeviceNotification → List (Text × Text)
pairs_of rows = map (λ n. (n.device_id, n.property)) rows

module _ {V : Type 0} (services : Services V) where
  -- One use of the file: what it answers, and the rows that it leaves.
  abbrev pub used : {A : Type 0} → Option Text → A → List DeviceNotification → M V A
  used none a rows w = (ok a, record w { rows = rows; uses = w.uses + 1 })
  used (some m) a rows w = (err (storage_failed m), record w { uses = w.uses + 1 })

  unfoldable pub get_by_id : Text → M V (Option DeviceNotification)
  get_by_id id w = used (services.fault w.uses) (find (λ n. n.id == id) w.rows) w.rows w

  unfoldable pub get_all_by_device_id : Text → M V (List DeviceNotification)
  get_all_by_device_id device_id w =
      used (services.fault w.uses) (filter (λ n. n.device_id == device_id) w.rows) w.rows w

  abbrev pub new_row : Text → Text → World V → DeviceNotification
  new_row device_id property w = record {
    id = services.uuid w.uses;
    device_id = device_id;
    property = property;
  }

  unfoldable pub create : Text → Text → M V DeviceNotification
  create device_id property w =
      used (services.fault w.uses) (new_row device_id property w)
        (w.rows ++ new_row device_id property w ∷ []) w

  unfoldable pub delete_by_id : Text → M V (Unit {0})
  delete_by_id id w = used (services.fault w.uses) tt (filter (λ n. not (n.id == id)) w.rows) w

  unfoldable pub delete_all_by_device_id : Text → M V (Unit {0})
  delete_all_by_device_id device_id w =
      used (services.fault w.uses) tt (filter (λ n. not (n.device_id == device_id)) w.rows) w

  abbrev pub polled : (Poller V → Poller V) → M V (Unit {0})
  polled f w = (ok tt, record w { poller = f w.poller })

  -- What a property of the request makes of the loop over the specification.
  abbrev pub subscribable : Text → Option (MiotProperty V) → Result NotificationError (Unit {0})
  subscribable key none = err (unknown_property key)
  subscribable key (some p) =
      if not (grants p read) && not (grants p write) then err (not_subscribable key) else ok tt

  unfoldable pub check_properties : SimplifiedMiotSpec V → List Text → M V (Unit {0})
  check_properties spec [] w = (ok tt, w)
  check_properties spec (key ∷ keys) w = elim (subscribable key (Dict.get key spec.properties)) [
    | ok u ↦ check_properties spec keys w
    | err e ↦ (err e, w)
  ]

  unfoldable pub create_all : Text → List Text → M V (List DeviceNotification)
  create_all device_id [] w = (ok [], w)
  create_all device_id (p ∷ ps) w =
      bind_from (create device_id p w)
        (λ n w'. bind_from (create_all device_id ps w') (λ ns. pure (n ∷ ns)))

  -- A row for each property, and then the poller.
  abbrev pub store_and_poll : Text → List Text → M V (List DeviceNotification)
  store_and_poll device_id properties = do
    created ← create_all device_id properties
    _ ← polled (add_subscriptions device_id properties)
    pure created

  abbrev pub post_found :
      Text → List Text → Result Text (Option (SimplifiedMiotSpec V)) → M V (List DeviceNotification)
  post_found device_id properties (err m) = throw (storage_failed m)
  post_found device_id properties (ok none) = throw (device_not_found device_id)
  post_found device_id properties (ok (some spec)) = do
    _ ← check_properties spec properties
    store_and_poll device_id properties

  -- NotificationPostHandler
  unfoldable pub post : Text → List Text → M V (List DeviceNotification)
  post device_id properties = post_found device_id properties (services.spec_of device_id)

  abbrev pub delete_found : Text → Text → Option DeviceNotification → M V (Unit {0})
  delete_found device_id id none w = (err (notification_not_found id), w)
  delete_found device_id id (some n) w =
      if not (n.device_id == device_id)
      then (err (not_of_device id device_id), w)
      else bind_from (delete_by_id id w) (λ _. polled (remove_subscription device_id n.property))

  -- NotificationDeleteHandler
  unfoldable pub delete : Text → Text → M V (Unit {0})
  delete device_id id = do n ← get_by_id id; delete_found device_id id n

  -- NotificationDeleteAllHandler
  unfoldable pub delete_all : Text → M V (Unit {0})
  delete_all device_id = do
    _ ← delete_all_by_device_id device_id
    polled (remove_all_subscriptions device_id)

  abbrev pub listing : Option Text → List DeviceNotification → Result Text (List (Text × Text))
  listing none rows = ok (pairs_of rows)
  listing (some m) rows = err m

  -- A new process: a new poller, which reads the subscriptions if polling is enabled. A start counts
  -- as a use of the file.
  unfoldable pub boot :
      (PollingConfig → Bool) → Option PollingConfig → World V → Result Text (Unit {0}) × World V
  boot is_enabled config w =
      let (r, s) = start is_enabled config (listing (services.fault w.uses) w.rows) init in
      (r, record w { uses = w.uses + 1; poller = s })
