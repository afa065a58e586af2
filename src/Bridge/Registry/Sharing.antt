-- ===== src/Bridge/Registry/Sharing.antt =====
-- apis/miot-bridge-api/src/services/MiotDeviceRegistry.ts: which client a device gets, and for how long.
use iot_miniservers.Prelude.{
  ℕ, zero, suc, ◌≡◌, refl, sym, ap, ◌∙◌, Bool, true, false, not, Option, none, some, List, [], ◌∷◌,
  ◌++◌, map, every, length, get_elem?, ◌==◌, nat_eq, nat_eqb_iff, Bool-cases, ◌⊎◌, inl, inr, arith,
  Option-cases,
}
use iot_miniservers.Prelude.Dict
use iot_miniservers.Prelude.Dict.{Dict, dict_laws}
use iot_miniservers.Bridge.Registry.{
  DeviceCache, MiotDeviceOptions, Instance, DeviceRegistry, empty_registry, get_or_create, remove,
  change_at, instance_of, kept_or_created, Event, accessed, removed, used, react, react_all,
}

-- What a client was constructed with, which no use of it changes.
abbrev pub options_at : ℕ → List Instance → Option MiotDeviceOptions
options_at h is = get_elem? (map (λ i. i.options) is) h

abbrev pub options_of : DeviceCache → MiotDeviceOptions
options_of device = record {
  address = device.address;
  token = device.token;
  device_id = some device.device_id;
}

abbrev pub id_within : Option MiotDeviceOptions → Option ℕ
id_within none = none
id_within (some o) = o.device_id

abbrev pub device_id_at : ℕ → List Instance → Option ℕ
device_id_at h is = id_within (options_at h is)

-- A kept handle leads to a client that was created for the id it is kept under.
abbrev pub IsOwned : DeviceRegistry → Type 0
IsOwned r = (k h : ℕ) → Dict.get k r.handles ≡ some h → device_id_at h r.created ≡ some k

abbrev pub spares : ℕ → Event → Bool
spares id (accessed device) = true
spares id (removed other) = not (other == id)
spares id (used h f) = true

instance_of-options : (device : DeviceCache) → (instance_of device).options ≡ options_of device
instance_of-options device = elim (Option-cases device.stamp) [
  | inl e ↦ rw e refl
  | inr (s, e) ↦ rw e refl
]

change_at-options :
    (n : ℕ) (f : _) (is : List Instance)
    → map (λ (i : Instance). i.options) (change_at n f is) ≡ map (λ (i : Instance). i.options) is
change_at-options n f [] = refl
change_at-options zero f (i ∷ is) = refl
change_at-options (suc n) f (i ∷ is) = ap (λ r. i.options ∷ r) (change_at-options n f is)

options_at-last :
    (is : List Instance) (i : Instance) → options_at (length is) (is ++ i ∷ []) ≡ some i.options
options_at-last [] i = refl
options_at-last (x ∷ is) i = options_at-last is i

options_at-append :
    (is js : List Instance) (h : ℕ) (o : MiotDeviceOptions)
    → options_at h is ≡ some o
    → options_at h (is ++ js) ≡ some o
options_at-append [] js h o e = ground arith
options_at-append (x ∷ is) js zero o e = e
options_at-append (x ∷ is) js (suc h) o e = options_at-append is js h o e

-- The first access of an id, or an access of an id that is kept.
get_or_create-cases :
    (d : DeviceCache) (r : DeviceRegistry)
    → ((h : ℕ) × (Dict.get d.device_id r.handles ≡ some h) × (get_or_create d r ≡ (h, r)))
      ⊎ ((Dict.get d.device_id r.handles ≡ none) × (get_or_create d r ≡ kept_or_created d r none))
unfolding get_or_create
get_or_create-cases d r = elim (Option-cases (Dict.get d.device_id r.handles)) [
  | inl e ↦ inr (e, ap (kept_or_created d r) e)
  | inr (h, e) ↦ inl (h, e, ap (kept_or_created d r) e)
]

-- Whoever asks gets a client that is then kept under the id.
get_or_create-kept :
    (d : DeviceCache) (r : DeviceRegistry)
    → Dict.get d.device_id (get_or_create d r).1.handles ≡ some (get_or_create d r).0
get_or_create-kept d r = elim (get_or_create-cases d r) [
  | inl (h, kept, e) ↦ rw e kept
  | inr (absent, e) ↦ rw (e, Dict.get-insert, Dict.eq_self d.device_id) refl
]

get_or_create-again :
    (d : DeviceCache) (r : DeviceRegistry) (h : ℕ)
    → Dict.get d.device_id r.handles ≡ some h
    → get_or_create d r ≡ (h, r)
unfolding get_or_create
get_or_create-again d r h e = ap (kept_or_created d r) e

-- A key put where there was none shows under no key that is there.
insert-kept :
    (k j v h : ℕ) (m : Dict ℕ ℕ)
    → Dict.get k m ≡ none
    → Dict.get j m ≡ some h
    → Dict.get j (Dict.insert k v m) ≡ some h
insert-kept k j v h m absent kept = elim (Bool-cases (k == j)) [
  | inl same ↦
      absurd (ground (arith, absent, kept, ap (λ i. Dict.get i m) ((nat_eqb_iff k j).0 same)))
  | inr other ↦ rw (Dict.get-insert, other) kept
]

-- An event that spares an id keeps its client.
react-spares :
    (id h : ℕ) (e : Event) (r : DeviceRegistry)
    → spares id e ≡ true
    → Dict.get id r.handles ≡ some h
    → Dict.get id (react e r).handles ≡ some h
unfolding remove
react-spares id h (used n f) r s kept = kept
react-spares id h (removed other) r s kept = ground (arith, Dict.get-remove other id r.handles)
react-spares id h (accessed d) r s kept = elim (get_or_create-cases d r) [
  | inl (g, had, e) ↦ rw (react, e) kept
  | inr (absent, e) ↦
      rw (react, e) (insert-kept d.device_id id (length r.created) h r.handles absent kept)
]

react_all-spares :
    (id h : ℕ) (es : List Event) (r : DeviceRegistry)
    → every (spares id) es ≡ true
    → Dict.get id r.handles ≡ some h
    → Dict.get id (react_all es r).handles ≡ some h
react_all-spares id h [] r s kept = kept
react_all-spares id h (e ∷ es) r s kept =
    react_all-spares id h es (react e r) (ground arith) (react-spares id h e r (ground arith) kept)

device_id_at-append :
    (is js : List Instance) (h id : ℕ)
    → device_id_at h is ≡ some id
    → device_id_at h (is ++ js) ≡ some id
device_id_at-append is js h id e = elim (Option-cases (options_at h is)) [
  | inl none_there ↦ absurd (ground (arith, e, ap id_within none_there))
  | inr (o, there) ↦
      ap id_within (options_at-append is js h o there) ∙ (sym (ap id_within there) ∙ e)
]

device_id_at-last :
    (is : List Instance) (d : DeviceCache)
    → device_id_at (length is) (is ++ instance_of d ∷ []) ≡ some d.device_id
device_id_at-last is d =
    ap id_within (options_at-last is (instance_of d))
    ∙ ap (λ o. o.device_id) (instance_of-options d)

insert-at :
    (k j v h : ℕ) (m : Dict ℕ ℕ) → (k == j) ≡ true → Dict.get j (Dict.insert k v m) ≡ some h → h ≡ v
insert-at k j v h m same kept = ground (arith, same, kept, Dict.get-insert k j v m)

insert-apart :
    (k j v h : ℕ) (m : Dict ℕ ℕ)
    → (k == j) ≡ false
    → Dict.get j (Dict.insert k v m) ≡ some h
    → Dict.get j m ≡ some h
insert-apart k j v h m other kept = ground (arith, other, kept, Dict.get-insert k j v m)

remove-apart :
    (k j h : ℕ) (m : Dict ℕ ℕ) → Dict.get j (Dict.remove k m) ≡ some h → Dict.get j m ≡ some h
remove-apart k j h m kept = ground (arith, kept, Dict.get-remove k j m)

created-IsOwned :
    (d : DeviceCache) (r : DeviceRegistry) → IsOwned r → IsOwned (kept_or_created d r none).1
created-IsOwned d r owned k h kept = elim (Bool-cases (d.device_id == k)) [
  | inl same ↦
      ap (λ n. device_id_at n (r.created ++ instance_of d ∷ []))
        (insert-at d.device_id k (length r.created) h r.handles same kept)
      ∙ (device_id_at-last r.created d ∙ ap some ((nat_eqb_iff d.device_id k).0 same))
  | inr other ↦
      device_id_at-append r.created _ h k
        (owned k h (insert-apart d.device_id k (length r.created) h r.handles other kept))
]

react-IsOwned : (e : Event) (r : DeviceRegistry) → IsOwned r → IsOwned (react e r)
unfolding remove
react-IsOwned (used n f) r owned k h kept =
    ap (λ os. id_within (get_elem? os h)) (change_at-options n f r.created) ∙ owned k h kept
react-IsOwned (removed id) r owned k h kept = owned k h (remove-apart id k h r.handles kept)
react-IsOwned (accessed d) r owned k h kept = elim (get_or_create-cases d r) [
  | inl (g, had, e) ↦
      ap (λ p. device_id_at h p.1.created) e
      ∙ owned k h (sym (ap (λ p. Dict.get k p.1.handles) e) ∙ kept)
  | inr (absent, e) ↦
      ap (λ p. device_id_at h p.1.created) e
      ∙ created-IsOwned d r owned k h (sym (ap (λ p. Dict.get k p.1.handles) e) ∙ kept)
]

react_all-IsOwned : (es : List Event) (r : DeviceRegistry) → IsOwned r → IsOwned (react_all es r)
react_all-IsOwned [] r owned = owned
react_all-IsOwned (e ∷ es) r owned = react_all-IsOwned es (react e r) (react-IsOwned e r owned)

empty-IsOwned : IsOwned empty_registry
unfolding Dict.get
empty-IsOwned k h kept = absurd (ground arith)

-- From an empty registry on, whatever is accessed, removed and used: the client that an access gives is
-- one created for the device id asked for. As long as nothing removes that id, every later access with
-- it, whatever else its record holds, gives the same client, and changes nothing.
pub get_or_create-shared :
    (before after : List Event) (d d' : DeviceCache)
    → every (spares d.device_id) after ≡ true
    → d'.device_id ≡ d.device_id
    → (device_id_at
          (get_or_create d (react_all before empty_registry)).0
          (get_or_create d (react_all before empty_registry)).1.created
        ≡ some d.device_id)
      × (get_or_create d' (react_all after (get_or_create d (react_all before empty_registry)).1)
          ≡ (
            (get_or_create d (react_all before empty_registry)).0,
            react_all after (get_or_create d (react_all before empty_registry)).1,
          ))
get_or_create-shared before after d d' spared same =
    let r = react_all before empty_registry in
    let owned =
      react-IsOwned (accessed d) r (react_all-IsOwned before empty_registry empty-IsOwned) in
    let later = (get_or_create d r).1 in
    (
      owned d.device_id (get_or_create d r).0 (get_or_create-kept d r),
      get_or_create-again d' (react_all after later) (get_or_create d r).0 (
          ap (λ id. Dict.get id (react_all after later).handles) same
          ∙ react_all-spares d.device_id (get_or_create d r).0 after later spared
              (get_or_create-kept d r)),
    )
