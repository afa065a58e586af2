-- ===== src/Bridge/Notifications/Effects.antt =====
-- apis/miot-bridge-api/src: what each change of the subscriptions, and of their rows, does to one
-- property of one device.
use iot_miniservers.Prelude.{
  ◌≡◌, refl, sym, ap, ◌∙◌, inl, inr, Bool, true, not, ◌&&◌, ◌||◌, Option, none, some, List, [], ◌∷◌,
  ◌++◌, Text, text_eq, any, filter, or_else, arith, if◌then◌else◌, ◌==◌, Bool-cases,
}
use iot_miniservers.Prelude.Dict
use iot_miniservers.Prelude.Dict.{Dict}
use iot_miniservers.Bridge.Poller.{
  Poller, add, add_all, store, without, add_subscriptions, remove_subscription,
  remove_all_subscriptions, load_subscriptions,
}
use iot_miniservers.Bridge.Notifications.{DeviceNotification, pairs_of}

abbrev pub holds : Text → List Text → Bool
holds p set = any (λ q. q == p) set

abbrev pub listed : Text → Text → Dict Text (List Text) → Bool
listed d p subscriptions = holds p (or_else (Dict.get d subscriptions) [])

abbrev pub is_subscribed : {V : Type 0} → Text → Text → Poller V → Bool
is_subscribed d p s = listed d p s.subscriptions

abbrev pub is_row : Text → Text → DeviceNotification → Bool
is_row d p n = n.device_id == d && n.property == p

abbrev pub is_stored : Text → Text → List DeviceNotification → Bool
is_stored d p rows = any (is_row d p) rows

holds-append : (p : Text) (xs ys : List Text) → holds p (xs ++ ys) ≡ (holds p xs || holds p ys)
holds-append p [] ys = refl
holds-append p (x ∷ xs) ys = ground (arith, holds-append p xs ys)

holds-eq : (p q : Text) (set : List Text) → (p == q) ≡ true → holds p set ≡ holds q set
holds-eq p q set h = ap (λ r. holds r set) ((text_eq.beq_iff p q).0 h)

holds-add : (p q : Text) (set : List Text) → holds p (add q set) ≡ (holds p set || q == p)
holds-add p q set = elim (Bool-cases (holds q set)) [
  | inl old ↦ rw old (ground (arith, holds-eq q p set))
  | inr new ↦ rw new (ground (arith, holds-append p set (q ∷ [])))
]

holds-add_all :
    (p : Text) (qs set : List Text) → holds p (add_all qs set) ≡ (holds p set || holds p qs)
holds-add_all p [] set = ground arith
holds-add_all p (q ∷ qs) set = ground (arith, holds-add_all p qs (add q set), holds-add p q set)

holds-filter :
    (p q : Text) (set : List Text)
    → holds p (filter (λ r. not (r == q)) set) ≡ (holds p set && not (q == p))
holds-filter p q [] = refl
holds-filter p q (r ∷ set) =
    ground
      (arith, holds-filter p q set, text_eq.beq_iff r q, text_eq.beq_iff r p, text_eq.beq_iff q p)

listed-insert :
    (d e p : Text) (set : List Text) (m : Dict Text (List Text))
    → listed d p (Dict.insert e set m) ≡ (if e == d then holds p set else listed d p m)
listed-insert d e p set m = elim (Bool-cases (e == d)) [
  | inl same ↦ rw (Dict.get-insert, same) refl
  | inr other ↦ rw (Dict.get-insert, other) refl
]

listed-remove :
    (d e p : Text) (m : Dict Text (List Text))
    → listed d p (Dict.remove e m) ≡ (listed d p m && not (e == d))
listed-remove d e p m = elim (Bool-cases (e == d)) [
  | inl same ↦ rw (Dict.get-remove, same) (ground arith)
  | inr other ↦ rw (Dict.get-remove, other) (ground arith)
]

listed-store :
    (d e p : Text) (set : List Text) (m : Dict Text (List Text))
    → listed d p (store e set m) ≡ (if e == d then holds p set else listed d p m)
listed-store d e p [] m = ground (arith, listed-remove d e p m)
listed-store d e p (q ∷ set) m = listed-insert d e p (q ∷ set) m

same_set :
    (d e p : Text) (m : Dict Text (List Text))
    → (e == d) ≡ true
    → listed d p m ≡ holds p (or_else (Dict.get e m) [])
same_set d e p m h = ap (λ k. holds p (or_else (Dict.get k m) [])) (sym ((text_eq.beq_iff e d).0 h))

listed-without :
    (d e p q : Text) (o : Option (List Text)) (m : Dict Text (List Text))
    → Dict.get e m ≡ o
    → listed d p (without e q o m) ≡ (listed d p m && not (e == d && q == p))
listed-without d e p q none m h = elim (Bool-cases (e == d)) [
  | inl same ↦ rw (same_set d e p m same, h) (ground arith)
  | inr other ↦ rw other (ground arith)
]
listed-without d e p q (some set) m h = elim (Bool-cases (e == d)) [
  | inl same ↦ listed-store d e p _ m ∙ rw (same, same_set d e p m same, h) (holds-filter p q set)
  | inr other ↦ listed-store d e p _ m ∙ rw other (ground arith)
]

module _ {V : Type 0} where
  pub is_subscribed-add_subscriptions :
      (d e p : Text) (ps : List Text) (s : Poller V)
      → is_subscribed d p (add_subscriptions e ps s)
        ≡ (is_subscribed d p s || (e == d && holds p ps))
  unfolding add_subscriptions
  is_subscribed-add_subscriptions d e p ps s = elim (Bool-cases (e == d)) [
    | inl same ↦
        listed-insert d e p _ s.subscriptions
        ∙ rw same (
            holds-add_all p ps _
            ∙ ap (λ b. b || holds p ps) (sym (same_set d e p s.subscriptions same)))
    | inr other ↦ listed-insert d e p _ s.subscriptions ∙ rw other (ground arith)
  ]

  pub is_subscribed-remove_subscription :
      (d e p q : Text) (s : Poller V)
      → is_subscribed d p (remove_subscription e q s)
        ≡ (is_subscribed d p s && not (e == d && q == p))
  unfolding remove_subscription
  is_subscribed-remove_subscription d e p q s =
      listed-without d e p q (Dict.get e s.subscriptions) s.subscriptions refl

  pub is_subscribed-remove_all_subscriptions :
      (d e p : Text) (s : Poller V)
      → is_subscribed d p (remove_all_subscriptions e s) ≡ (is_subscribed d p s && not (e == d))
  unfolding remove_all_subscriptions
  is_subscribed-remove_all_subscriptions d e p s = listed-remove d e p s.subscriptions

  pub is_subscribed-load_subscriptions :
      (d p : Text) (rows : List DeviceNotification) (s : Poller V)
      → is_subscribed d p (load_subscriptions (pairs_of rows) s)
        ≡ (is_subscribed d p s || is_stored d p rows)
  unfolding load_subscriptions
  is_subscribed-load_subscriptions d p [] s = ground arith
  is_subscribed-load_subscriptions d p (n ∷ rows) s = elim (Bool-cases (n.device_id == d)) [
    | inl same ↦
        is_subscribed-load_subscriptions d p rows _
        ∙ rw (listed-insert d n.device_id p _ s.subscriptions, same)
            (rw (holds-add, sym (same_set d n.device_id p s.subscriptions same)) (ground arith))
    | inr other ↦
        is_subscribed-load_subscriptions d p rows _
        ∙ rw (listed-insert d n.device_id p _ s.subscriptions, other) (ground arith)
  ]

pub is_stored-append :
    (d p : Text) (xs ys : List DeviceNotification)
    → is_stored d p (xs ++ ys) ≡ (is_stored d p xs || is_stored d p ys)
is_stored-append d p [] ys = refl
is_stored-append d p (n ∷ xs) ys = ground (arith, is_stored-append d p xs ys)

pub is_stored-filter_device :
    (d e p : Text) (rows : List DeviceNotification)
    → is_stored d p (filter (λ n. not (n.device_id == e)) rows)
      ≡ (is_stored d p rows && not (e == d))
is_stored-filter_device d e p [] = refl
is_stored-filter_device d e p (n ∷ rows) = ground (
  arith,
  is_stored-filter_device d e p rows,
  text_eq.beq_iff n.device_id e,
  text_eq.beq_iff n.device_id d,
  text_eq.beq_iff e d,
)
