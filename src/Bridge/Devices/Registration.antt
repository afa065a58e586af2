-- ===== src/Bridge/Devices/Registration.antt =====
-- apis/miot-bridge-api/src/handlers/devices: what requests that follow on one another leave in the file.
use iot_miniservers.Prelude.{
  ℕ, ◌+◌, ◌≤◌, ◌≡◌, refl, inl, inr, not, Bool, true, false, any, Bool-cases, Option, none, some,
  List, [], ◌∷◌, ◌++◌, Text, text_eq, nat_eqb, find, filter, length, arith, ◌==◌, Option-cases,
  if◌then◌else◌,
}
use iot_miniservers.Prelude.Result.{Result, ok, err}
use iot_miniservers.Bridge.Devices.{
  StoredDevice, NewDevice, apply_change, persisted, get_by_id, get_by_device_id,
}
use iot_miniservers.Bridge.Devices.Handlers.{
  DeviceRequest, DiscoveryResult, DeviceError, Discovery, Devices, discover_device, row_of,
  register, post_discovered, post, delete_known, delete,
}

module _ {S N : Type 0} where
  -- The rows of one hardware device.
  abbrev pub count : ℕ → Devices S N → ℕ
  count k devices = length (filter (λ d. nat_eqb d.fields.device_id k) devices)

  abbrev pub IsUnique : Devices S N → Type 0
  IsUnique devices = (k : ℕ) → count k devices ≤ 1

  count-append :
      (k : ℕ) (devices : Devices S N) (d : StoredDevice S N)
      → count k (devices ++ d ∷ [])
        ≡ count k devices + (if nat_eqb d.fields.device_id k then 1 else 0)
  count-append k [] d = ground arith
  count-append k (x ∷ devices) d = ground (arith, count-append k devices d)

  count-absent :
      (k : ℕ) (devices : Devices S N)
      → find (λ d. nat_eqb d.fields.device_id k) devices ≡ none
      → count k devices ≡ 0
  count-absent k [] h = refl
  count-absent k (x ∷ devices) h = ground (arith, count-absent k devices)

  count-filter :
      (k : ℕ) (id : Text) (devices : Devices S N)
      → count k (filter (λ d. not (d.id == id)) devices) ≤ count k devices
  count-filter k id [] = omega arith
  count-filter k id (x ∷ devices) = ground (arith, count-filter k id devices)

  find-append :
      (k : ℕ) (devices : Devices S N) (d : StoredDevice S N)
      → find (λ d. nat_eqb d.fields.device_id k) devices ≡ none
      → d.fields.device_id ≡ k
      → find (λ d. nat_eqb d.fields.device_id k) (devices ++ d ∷ []) ≡ some d
  find-append k [] d h e = ground arith
  find-append k (x ∷ devices) d h e = ground (arith, find-append k devices d)

  find-append_some :
      (p : StoredDevice S N → Bool) (devices : Devices S N) (d e : StoredDevice S N)
      → find p devices ≡ some e
      → find p (devices ++ d ∷ []) ≡ some e
  find-append_some p [] d e h = absurd (ground (arith, h))
  find-append_some p (x ∷ devices) d e h = ground (arith, h, find-append_some p devices d e)

  find-filter :
      (p q : StoredDevice S N → Bool) (devices : Devices S N) (e : StoredDevice S N)
      → find p devices ≡ some e
      → q e ≡ true
      → find p (filter q devices) ≡ some e
  find-filter p q [] e h k = absurd (ground (arith, h))
  find-filter p q (x ∷ devices) e h k = elim (Bool-cases (p x)) [
    | inl here ↦
        let same : x ≡ e = ground (arith, h, here) in
        let also = rw same at here in rw (same, k, also) refl
    | inr passed ↦ elim (Bool-cases (q x)) [
      | inl stays ↦ rw (stays, passed) (find-filter p q devices e (ground (arith, h, passed)) k)
      | inr goes ↦ rw goes (find-filter p q devices e (ground (arith, h, passed)) k)
    ]
  ]

  delete_known-IsUnique :
      (id : Text) (o : Option (StoredDevice S N)) (devices : Devices S N)
      → IsUnique devices
      → IsUnique (delete_known id o devices).1
  unfolding apply_change
  delete_known-IsUnique id none devices u = u
  delete_known-IsUnique id (some d) devices u = λ k. omega (arith, u k, count-filter k id devices)

  delete-IsUnique :
      (id : Text) (devices : Devices S N) → IsUnique devices → IsUnique (delete id devices).1
  unfolding delete
  delete-IsUnique id devices u = delete_known-IsUnique id (get_by_id id devices) devices u

-- The requests, each with the id and the instant of the row that it may store.
pub data Request (N : Type 0) : Type 0 where
  posted : Text → N → DeviceRequest → Request N
  deleted : Text → Request N

abbrev pub deletes : {N : Type 0} → Text → Request N → Bool
deletes row (posted id now request) = false
deletes row (deleted id) = row == id

-- A registration: who is refused, and what everyone else leaves.
abbrev Stored :
    {S D N : Type 0}
    → Result DeviceError (StoredDevice S N × D)
    → Devices S N
    → Devices S N
    → Type 0
Stored (err e) before after = after ≡ before
Stored (ok (saved, spec)) before after =
    (get_by_device_id saved.fields.device_id before ≡ none)
    × (get_by_device_id saved.fields.device_id after ≡ some saved)

module _ {S D N : Type 0} where
  register-IsUnique :
      (id : Text) (now : N) (device : NewDevice S) (spec : D) (devices : Devices S N)
      → IsUnique devices
      → IsUnique (register id now device spec (get_by_device_id device.device_id devices) devices).1
  unfolding apply_change get_by_device_id
  register-IsUnique id now device spec devices u =
      elim (Option-cases (find (λ d. nat_eqb d.fields.device_id device.device_id) devices)) [
        | inl absent ↦ rw absent (λ k. ground (
          arith,
          u k,
          count-append k devices (persisted id now device),
          count-absent device.device_id devices absent,
        ))
        | inr (d, there) ↦ rw there u
      ]

  register-Stored :
      (id : Text) (now : N) (device : NewDevice S) (spec : D) (devices : Devices S N)
      → Stored
          (register id now device spec (get_by_device_id device.device_id devices) devices).0
          devices
          (register id now device spec (get_by_device_id device.device_id devices) devices).1
  unfolding apply_change get_by_device_id
  register-Stored id now device spec devices =
      elim (Option-cases (find (λ d. nat_eqb d.fields.device_id device.device_id) devices)) [
        | inl absent ↦
            rw absent
              (absent, find-append device.device_id devices (persisted id now device) absent refl)
        | inr (d, there) ↦ rw there refl
      ]

module _ {S D T V N : Type 0} (d : Discovery S D T V) where
  abbrev pub serve : Request N → Devices S N → Devices S N
  serve (posted id now request) devices = (post d id now request devices).1
  serve (deleted id) devices = (delete id devices).1

  unfoldable pub serve_all : List (Request N) → Devices S N → Devices S N
  serve_all [] devices = devices
  serve_all (r ∷ rs) devices = serve_all rs (serve r devices)

  post_discovered-IsUnique :
      (id : Text) (now : N) (request : DeviceRequest) (found : Result Text (DiscoveryResult S D))
      (devices : Devices S N)
      → IsUnique devices
      → IsUnique (post_discovered id now request found devices).1
  post_discovered-IsUnique id now request (err m) devices u = u
  post_discovered-IsUnique id now request (ok found) devices u =
      register-IsUnique id now (row_of request found) found.simplified_spec devices u

  post_discovered-Stored :
      (id : Text) (now : N) (request : DeviceRequest) (found : Result Text (DiscoveryResult S D))
      (devices : Devices S N)
      → Stored
          (post_discovered id now request found devices).0
          devices
          (post_discovered id now request found devices).1
  post_discovered-Stored id now request (err m) devices = refl
  post_discovered-Stored id now request (ok found) devices =
      register-Stored id now (row_of request found) found.simplified_spec devices

  serve_all-IsUnique :
      (rs : List (Request N)) (devices : Devices S N)
      → IsUnique devices
      → IsUnique (serve_all rs devices)
  unfolding serve_all post
  serve_all-IsUnique [] devices u = u
  serve_all-IsUnique (posted id now request ∷ rs) devices u =
      serve_all-IsUnique rs (serve (posted id now request) devices)
        (post_discovered-IsUnique id now request (discover_device d request) devices u)
  serve_all-IsUnique (deleted id ∷ rs) devices u =
      serve_all-IsUnique rs (serve (deleted id) devices) (delete-IsUnique id devices u)

  post_discovered-held :
      (k : ℕ) (saved : StoredDevice S N) (id : Text) (now : N) (request : DeviceRequest)
      (found : Result Text (DiscoveryResult S D)) (devices : Devices S N)
      → get_by_device_id k devices ≡ some saved
      → get_by_device_id k (post_discovered id now request found devices).1 ≡ some saved
  unfolding apply_change get_by_device_id
  post_discovered-held k saved id now request (err m) devices h = h
  post_discovered-held k saved id now request (ok found) devices h =
      elim (Option-cases (find (λ d. nat_eqb d.fields.device_id found.device_id) devices)) [
        | inl absent ↦ rw absent (find-append_some _ devices _ saved h)
        | inr (d, there) ↦ rw there h
      ]

  delete_known-held :
      (k : ℕ) (saved : StoredDevice S N) (id : Text) (o : Option (StoredDevice S N))
      (devices : Devices S N)
      → saved.id == id ≡ false
      → get_by_device_id k devices ≡ some saved
      → get_by_device_id k (delete_known {S = S} {N = N} id o devices).1 ≡ some saved
  unfolding apply_change get_by_device_id
  delete_known-held k saved id none devices other h = h
  delete_known-held k saved id (some d) devices other h =
      find-filter _ (λ d. not (d.id == id)) devices saved h (ground (arith, other))

  -- A row that is found for a device stays, as long as nothing deletes it.
  serve_all-held :
      (k : ℕ) (saved : StoredDevice S N) (rs : List (Request N)) (devices : Devices S N)
      → any (deletes saved.id) rs ≡ false
      → get_by_device_id k devices ≡ some saved
      → get_by_device_id k (serve_all rs devices) ≡ some saved
  unfolding serve_all post delete
  serve_all-held k saved [] devices kept h = h
  serve_all-held k saved (posted id now request ∷ rs) devices kept h =
      serve_all-held k saved rs (serve (posted id now request) devices) kept
        (post_discovered-held k saved id now request (discover_device d request) devices h)
  serve_all-held k saved (deleted id ∷ rs) devices kept h =
      serve_all-held k saved rs (serve (deleted id) devices) (ground (arith, kept))
        (delete_known-held k saved id (get_by_id id devices) devices (ground (arith, kept)) h)

  -- A registration with the requests that come later: one that fails leaves the file as it was; one that succeeds was
  -- of a device without a row, and its row is found for the device from then on, unless a later request
  -- deletes it.
  abbrev pub Registered :
      Result DeviceError (StoredDevice S N × D)
      → Devices S N
      → Devices S N
      → List (Request N)
      → Type 0
  Registered (err e) before after later = after ≡ before
  Registered (ok (saved, spec)) before after later =
      let found = get_by_device_id saved.fields.device_id (serve_all later after) in
      (get_by_device_id saved.fields.device_id before ≡ none)
      × (found ≡ (if any (deletes saved.id) later then found else some saved))

  Stored-Registered :
      (r : Result DeviceError (StoredDevice S N × D)) (before after : Devices S N)
      (later : List (Request N))
      → Stored r before after
      → Registered r before after later
  Stored-Registered (err e) before after later h = h
  Stored-Registered (ok (saved, spec)) before after later (new, held) =
      elim (Bool-cases (any (deletes saved.id) later)) [
        | inl gone ↦ (new, rw gone refl)
        | inr kept ↦
            (new, rw kept (serve_all-held saved.fields.device_id saved later after kept held))
      ]

  -- From an empty file on, after any requests that follow on one another: no hardware device has two rows.
  -- A further registration that succeeds was of a device without a row, and the row that it answers is the
  -- one that is found for the device behind it and any later requests, as long as none of them deletes that row;
  -- one that fails leaves the file as it was.
  pub post-serve_all :
      (rs : List (Request N)) (id : Text) (now : N) (request : DeviceRequest)
      (later : List (Request N))
      → IsUnique (serve_all rs [])
        × Registered
            (post d id now request (serve_all rs [])).0
            (serve_all rs [])
            (post d id now request (serve_all rs [])).1
            later
  unfolding post
  post-serve_all rs id now request later = (
    serve_all-IsUnique rs [] (λ k. omega arith),
    Stored-Registered _ (serve_all rs []) _ later
        (post_discovered-Stored id now request (discover_device d request) (serve_all rs [])),
  )
