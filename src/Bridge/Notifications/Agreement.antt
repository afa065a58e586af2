-- ===== src/Bridge/Notifications/Agreement.antt =====
-- apis/miot-bridge-api/src/handlers/notifications: when the poller polls exactly what is stored.
use iot_miniservers.Prelude.{
  ℕ, ◌+◌, ◌≡◌, refl, sym, ap, ◌∙◌, inl, inr, Bool, true, false, not, ◌&&◌, ◌||◌, Option, none, some,
  List, [], ◌∷◌, ◌++◌, Text, text_eq, every, filter, find, arith, ◌==◌, Bool-cases,
}
use iot_miniservers.Prelude.Dict
use iot_miniservers.Prelude.Result.{Result, ok, err, Result-cases}
use iot_miniservers.Bridge.Commands.{SimplifiedMiotSpec}
use iot_miniservers.Bridge.Poller.{PollingConfig, init}
use iot_miniservers.Bridge.Poller.Polling.{start}
use iot_miniservers.Bridge.Notifications.{
  DeviceNotification, NotificationError, World, Services, bind_from, new_row, create, create_all,
  check_properties, subscribable, post, post_found, store_and_poll, delete, delete_found,
  delete_by_id, delete_all, delete_all_by_device_id, get_by_id, boot,
}
use iot_miniservers.Bridge.Notifications.Effects.{
  holds, is_row, is_stored, is_subscribed, is_stored-append, is_stored-filter_device,
  is_subscribed-add_subscriptions, is_subscribed-remove_subscription,
  is_subscribed-remove_all_subscriptions, is_subscribed-load_subscriptions,
}

-- The poller polls a property of a device exactly if a row asks for it.
abbrev pub Agrees : {V : Type 0} → World V → Type 0
Agrees w = (d p : Text) → is_subscribed d p w.poller ≡ is_stored d p w.rows

abbrev pub bool_eqb : Bool → Bool → Bool
bool_eqb true b = b
bool_eqb false b = not b

-- The rows with the id are exactly the rows of the property that `n` asks for.
abbrev pub is_sole : Text → DeviceNotification → List DeviceNotification → Bool
is_sole id n rows = every (λ m. bool_eqb (m.id == id) (is_row n.device_id n.property m)) rows

is_stored-filter_id :
    (d p id : Text) (n : DeviceNotification) (rows : List DeviceNotification)
    → is_sole id n rows ≡ true
    → is_stored d p (filter (λ m. not (m.id == id)) rows)
      ≡ (is_stored d p rows && not (n.device_id == d && n.property == p))
is_stored-filter_id d p id n [] h = refl
is_stored-filter_id d p id n (m ∷ rows) h = ground (
  arith,
  is_stored-filter_id d p id n rows,
  text_eq.beq_iff m.device_id n.device_id,
  text_eq.beq_iff m.device_id d,
  text_eq.beq_iff n.device_id d,
  text_eq.beq_iff m.property n.property,
  text_eq.beq_iff m.property p,
  text_eq.beq_iff n.property p,
)

module _ {V : Type 0} (services : Services V) (works : (n : ℕ) → services.fault n ≡ none) where
  -- What a loop that creates rows leaves.
  record Creates (e : Text) (ps : List Text) (w : World V) : Type 0 where
    created : List DeviceNotification
    world : World V
    returns : create_all services e ps w ≡ (ok created, world)
    poller : world.poller ≡ w.poller
    stored :
        (d p : Text) → is_stored d p world.rows ≡ (is_stored d p w.rows || (e == d && holds p ps))

  create_all-Creates : (e : Text) (ps : List Text) (w : World V) → Creates e ps w
  unfolding create_all create
  create_all-Creates e [] w = record {
    created = [];
    world = w;
    returns = refl;
    poller = refl;
    stored = λ d p. ground arith;
  }
  create_all-Creates e (p ∷ ps) w =
      let w' : World V = record w {
        rows = w.rows ++ new_row services e p w ∷ [];
        uses = w.uses + 1;
      } in
      let rest = create_all-Creates e ps w' in
      record {
        created = new_row services e p w ∷ rest.created;
        world = rest.world;
        returns = rw (works w.uses, rest.returns) refl;
        poller = rest.poller;
        stored = λ d q.
            rest.stored d q
            ∙ ground (arith, is_stored-append d q w.rows (new_row services e p w ∷ []));
      }

  check_properties-world :
      (spec : SimplifiedMiotSpec V) (keys : List Text) (w : World V)
      → (check_properties services spec keys w).1 ≡ w
  unfolding check_properties
  check_properties-world spec [] w = refl
  check_properties-world spec (key ∷ keys) w =
      elim (Result-cases (subscribable services key (Dict.get key spec.properties))) [
        | inl (u, e) ↦ rw (check_properties, e) (check_properties-world spec keys w)
        | inr (x, e) ↦ rw (check_properties, e) refl
      ]

  subscribe-Agrees :
      (e : Text) (ps : List Text) (w : World V)
      → Agrees w
      → Agrees (store_and_poll services e ps w).1
  subscribe-Agrees e ps w a d p =
      let c = create_all-Creates e ps w in
      rw c.returns (
        is_subscribed-add_subscriptions d e p ps c.world.poller
        ∙ rw (c.poller, a d p) (sym (c.stored d p)))

  bound-Agrees :
      (e : Text) (ps : List Text) (r : Result NotificationError (Unit {0})) (w : World V)
      → Agrees w
      → Agrees (bind_from (r, w) (λ _. store_and_poll services e ps)).1
  bound-Agrees e ps (err x) w a = a
  bound-Agrees e ps (ok u) w a = subscribe-Agrees e ps w a

  post_found-Agrees :
      (e : Text) (ps : List Text) (o : Result Text (Option (SimplifiedMiotSpec V))) (w : World V)
      → Agrees w
      → Agrees (post_found services e ps o w).1
  post_found-Agrees e ps (err m) w a = a
  post_found-Agrees e ps (ok none) w a = a
  post_found-Agrees e ps (ok (some spec)) w a =
      bound-Agrees e ps (check_properties services spec ps w).0
        (check_properties services spec ps w).1 (rw (check_properties-world spec ps w) a)

  pub post-Agrees :
      (e : Text) (ps : List Text) (w : World V) → Agrees w → Agrees (post services e ps w).1
  unfolding post
  post-Agrees e ps w a = post_found-Agrees e ps (services.spec_of e) w a

  pub delete_all-Agrees : (e : Text) (w : World V) → Agrees w → Agrees (delete_all services e w).1
  unfolding delete_all delete_all_by_device_id
  delete_all-Agrees e w a d p = rw (works w.uses) (
      is_subscribed-remove_all_subscriptions d e p w.poller
      ∙ rw (a d p) (sym (is_stored-filter_device d e p w.rows)))

  delete_found-Agrees :
      (e id : Text) (o : Option DeviceNotification) (w : World V)
      → ((n : DeviceNotification) → o ≡ some n → is_sole id n w.rows ≡ true)
      → Agrees w
      → Agrees (delete_found services e id o w).1
  unfolding delete_by_id
  delete_found-Agrees e id none w sole a = a
  delete_found-Agrees e id (some n) w sole a = elim (Bool-cases (n.device_id == e)) [
    | inl own ↦ λ d p.
        rw (own, works w.uses)
          (is_subscribed-remove_subscription d e p n.property w.poller
            ∙ (rw (a d p) refl
                ∙ sym (
                    is_stored-filter_id d p id n w.rows (sole n refl)
                    ∙ ap (λ k. is_stored d p w.rows && not (k == d && n.property == p))
                        ((text_eq.beq_iff n.device_id e).0 own))))
    | inr other ↦ rw other a
  ]

  pub delete-Agrees :
      (e id : Text) (w : World V)
      → ((n : DeviceNotification)
          → find (λ n. n.id == id) w.rows ≡ some n
          → is_sole id n w.rows ≡ true)
      → Agrees w
      → Agrees (delete services e id w).1
  unfolding delete get_by_id
  delete-Agrees e id w sole a = rw (works w.uses) (
      delete_found-Agrees e id (find (λ n. n.id == id) w.rows) (record w { uses = w.uses + 1 }) sole
        a)

  pub boot-Agrees :
      (is_enabled : PollingConfig → Bool) (config : PollingConfig) (w : World V)
      → is_enabled config ≡ true
      → Agrees (boot services is_enabled (some config) w).1
  unfolding boot start init Dict.get
  boot-Agrees is_enabled config w enabled d p =
      rw (works w.uses, enabled) (is_subscribed-load_subscriptions d p w.rows init)
