-- ===== src/Bridge/Commands/Execute.antt =====
-- DeviceCommandService.ts: `execute` and `executeRaw`.
use iot_miniservers.Prelude.{
  ℕ, ◌≡◌, ◌⊎◌, refl, inl, inr, Option, none, some, List, [], ◌∷◌, Text, arith, Eq, text_eq,
}
use iot_miniservers.Prelude.Result.{Result, ok, err}
use iot_miniservers.Miot.Error.{Thrown}
use iot_miniservers.Bridge.Poller.{PropertyChangeEvent}
use iot_miniservers.Bridge.Commands.{
  SimplifiedMiotSpec, Operation, get_property, set_property, run_action, other_operation,
  DeviceCommandRequest, RawCommandRequest, Device, ResolvedCommand, getting, setting, acting,
  CommandError, device_not_found, iid_required, unsupported, lookup_failed, device_failed, Services,
  Executed, miot_method_of, resolve_command,
}
use iot_miniservers.Bridge.Commands.Authority.{Authorised, resolve_command-Authorised}

-- The event that `notificationDispatch.receive` is given.
abbrev pub announced : {V : Type 0} → Device → Text → Option V → ℕ → PropertyChangeEvent V
announced device command value now = record {
  device_id = device.id;
  miot_device_id = device.device_id;
  property = command;
  old_value = none;
  new_value = value;
  timestamp = now;
}

module _ {V W : Type 0} where
  abbrev pub refused : CommandError → W → Executed V W
  refused error w = record { result = err error; world = w; events = []; rejections = [] }

  -- What follows the answer of the device: an event where `announce` says so.
  unfoldable pub answered :
      (W → Option V → List (PropertyChangeEvent V)) → Result Thrown (Option V) × W → Executed V W
  answered announce (ok value, w) = record {
    result = ok value;
    world = w;
    events = announce w value;
    rejections = [];
  }
  answered announce (err e, w) = refused (device_failed e) w

  abbrev pub silent : W → Option V → List (PropertyChangeEvent V)
  silent w value = []

  -- The response of a command that only succeeds carries no value.
  abbrev pub valueless : Result Thrown (Unit {0}) × W → Result Thrown (Option V) × W
  valueless (ok tt, w) = (ok none, w)
  valueless (err e, w) = (err e, w)

  -- The `switch` of `execute`.
  unfoldable pub perform :
      Services V W → Device → DeviceCommandRequest V → ResolvedCommand V → W → Executed V W
  unfolding answered
  perform env device request (getting p) w =
      answered (λ w' value. announced device request.command value (env.now w') ∷ [])
        ((env.client device).get p.siid p.piid w)
  perform env device request (setting p) w =
      answered (λ w' value. announced device request.command request.value (env.now w') ∷ [])
        (valueless ((env.client device).set p.siid p.piid request.value w))
  perform env device request (acting a) w =
      answered silent (valueless ((env.client device).act a.siid a.aiid request.value w))

  -- `resolveOrRecordRejection` and what it guards.
  unfoldable pub perform_resolved :
      Services V W
      → Device
      → DeviceCommandRequest V
      → Result CommandError (ResolvedCommand V)
      → W
      → Executed V W
  unfolding perform
  perform_resolved env device request (ok resolved) w = perform env device request resolved w
  perform_resolved env device request (err error) w = record (refused error w) {
    rejections = miot_method_of request.operation ∷ [];
  }

  module _ ⦃e : Eq V⦄ (env : Services V W) where
    unfoldable pub execute_on :
        Device → Result Text (SimplifiedMiotSpec V) → DeviceCommandRequest V → W → Executed V W
    unfolding perform_resolved
    execute_on device (err m) request w = refused (lookup_failed m) w
    execute_on device (ok spec) request w =
        perform_resolved env device request (resolve_command request spec) w

    unfoldable pub execute_found :
        Result Text (Option Device) → DeviceCommandRequest V → W → Executed V W
    unfolding execute_on
    execute_found (err m) request w = refused (lookup_failed m) w
    execute_found (ok none) request w = refused device_not_found w
    execute_found (ok (some device)) request w = execute_on device (env.spec_of device) request w

    unfoldable pub execute : DeviceCommandRequest V → W → Executed V W
    unfolding execute_found
    execute request w = execute_found (env.by_device_id request.device_id) request w

  module _ (env : Services V W) where
    unfoldable pub perform_raw :
        Device → RawCommandRequest V → Operation → Option ℕ → Option ℕ → W → Executed V W
    unfolding answered
    perform_raw device r get_property none aiid w = refused (iid_required get_property) w
    perform_raw device r get_property (some piid) aiid w =
        answered silent ((env.client device).get r.siid piid w)
    perform_raw device r set_property none aiid w = refused (iid_required set_property) w
    perform_raw device r set_property (some piid) aiid w =
        answered silent (valueless ((env.client device).set r.siid piid r.value w))
    perform_raw device r run_action piid none w = refused (iid_required run_action) w
    perform_raw device r run_action piid (some aiid) w =
        answered silent (valueless ((env.client device).act r.siid aiid r.value w))
    perform_raw device r (other_operation name) piid aiid w =
        refused (unsupported (other_operation name)) w

    unfoldable pub execute_raw : RawCommandRequest V → W → Executed V W
    unfolding perform_raw
    execute_raw r w = elim (env.by_device_id r.device_id) [
      | err m ↦ refused (lookup_failed m) w
      | ok none ↦ refused device_not_found w
      | ok (some device) ↦ perform_raw device r r.operation r.piid r.aiid w
    ]

  -- What one call of the device makes of an execution: the world that the call leaves, what it answered with, and the
  -- events, of which a failed call has none.
  abbrev pub Did :
      {B : Type 0}
      → (B → Option V)
      → (B → W → List (PropertyChangeEvent V))
      → Result Thrown B × W
      → Executed V W
      → Type 0
  Did value events (ok b, w) x =
      (x.world ≡ w) × (x.result ≡ ok (value b)) × (x.events ≡ events b w) × (x.rejections ≡ [])
  Did value events (err e, w) x =
      (x.world ≡ w) × (x.result ≡ err (device_failed e)) × (x.events ≡ []) × (x.rejections ≡ [])

  -- The execution of a resolved command in the world w: a get reads the property and announces the value that was
  -- read, a set writes the value of the request and announces it, an action is called with it and announces nothing.
  abbrev pub DidOne :
      Services V W → Device → DeviceCommandRequest V → ResolvedCommand V → W → Executed V W → Type 0
  DidOne env device request (getting p) w x =
      Did (λ v. v)
        (λ v w'.
          record {
            device_id = device.id;
            miot_device_id = device.device_id;
            property = request.command;
            old_value = none;
            new_value = v;
            timestamp = env.now w';
          }
          ∷ [])
        ((env.client device).get p.siid p.piid w) x
  DidOne env device request (setting p) w x =
      Did (λ _. none)
        (λ _ w'.
          record {
            device_id = device.id;
            miot_device_id = device.device_id;
            property = request.command;
            old_value = none;
            new_value = request.value;
            timestamp = env.now w';
          }
          ∷ [])
        ((env.client device).set p.siid p.piid request.value w) x
  DidOne env device request (acting a) w x =
      Did (λ _. none) (λ _ w'. []) ((env.client device).act a.siid a.aiid request.value w) x

  answered-Did :
      (announce : W → Option V → List (PropertyChangeEvent V)) (a : Result Thrown (Option V) × W)
      → Did (λ v. v) (λ v w. announce w v) a (answered announce a)
  unfolding answered
  answered-Did announce (ok v, w) = (refl, refl, refl, refl)
  answered-Did announce (err e, w) = (refl, refl, refl, refl)

  valueless-Did :
      (announce : W → List (PropertyChangeEvent V)) (a : Result Thrown (Unit {0}) × W)
      → Did (λ _. none) (λ _ w. announce w) a (answered (λ w v. announce w) (valueless a))
  unfolding answered
  valueless-Did announce (ok u, w) = (refl, refl, refl, refl)
  valueless-Did announce (err e, w) = (refl, refl, refl, refl)

  perform-DidOne :
      (env : Services V W) (device : Device) (request : DeviceCommandRequest V)
      (r : ResolvedCommand V) (w : W)
      → DidOne env device request r w (perform env device request r w)
  unfolding perform
  perform-DidOne env device request (getting p) w = answered-Did _ _
  perform-DidOne env device request (setting p) w = valueless-Did _ _
  perform-DidOne env device request (acting a) w = valueless-Did _ _

  module _ ⦃e : Eq V⦄ (env : Services V W) where
    -- An execution that left the world alone and told nobody, or was authorised and did no more than
    -- its one call.
    abbrev pub Contained : DeviceCommandRequest V → W → Executed V W → Type 0
    Contained request w x =
        ((x.world ≡ w) × (x.events ≡ []))
        ⊎ ((device : Device) × (spec : SimplifiedMiotSpec V) × (r : ResolvedCommand V)
            × (env.by_device_id request.device_id ≡ ok (some device))
            × (env.spec_of device ≡ ok spec)
            × Authorised request spec r
            × DidOne env device request r w x)

    perform_resolved-Contained :
        (device : Device) (spec : SimplifiedMiotSpec V) (request : DeviceCommandRequest V) (w : W)
        (r : Result CommandError (ResolvedCommand V))
        → env.by_device_id request.device_id ≡ ok (some device)
        → env.spec_of device ≡ ok spec
        → resolve_command request spec ≡ r
        → Contained request w (perform_resolved env device request r w)
    unfolding perform_resolved
    perform_resolved-Contained device spec request w (ok r) f g h = inr (
      device,
      spec,
      r,
      f,
      g,
      resolve_command-Authorised request spec r h,
      perform-DidOne env device request r w,
    )
    perform_resolved-Contained device spec request w (err error) f g h = inl (refl, refl)

    execute_on-Contained :
        (device : Device) (spec : Result Text (SimplifiedMiotSpec V))
        (request : DeviceCommandRequest V) (w : W)
        → env.by_device_id request.device_id ≡ ok (some device)
        → env.spec_of device ≡ spec
        → Contained request w (execute_on env device spec request w)
    unfolding execute_on
    execute_on-Contained device (err m) request w f g = inl (refl, refl)
    execute_on-Contained device (ok spec) request w f g =
        perform_resolved-Contained device spec request w (resolve_command request spec) f g refl

    execute_found-Contained :
        (found : Result Text (Option Device)) (request : DeviceCommandRequest V) (w : W)
        → env.by_device_id request.device_id ≡ found
        → Contained request w (execute_found env found request w)
    unfolding execute_found
    execute_found-Contained (err m) request w f = inl (refl, refl)
    execute_found-Contained (ok none) request w f = inl (refl, refl)
    execute_found-Contained (ok (some device)) request w f =
        execute_on-Contained device (env.spec_of device) request w f refl

    -- A command that is executed has either left the world alone and told nobody, or it was
    -- authorised: by the specification of the device that was found, for the operation of the
    -- request; and then all that it did is the one call of that device and its event.
    pub execute-Contained :
        (request : DeviceCommandRequest V) (w : W) → Contained request w (execute env request w)
    unfolding execute
    execute-Contained request w =
        execute_found-Contained (env.by_device_id request.device_id) request w refl

    Did-events :
        {B : Type 0} (value : B → Option V) (events : B → W → List (PropertyChangeEvent V))
        (a : Result Thrown B × W) (x : Executed V W) (c : CommandError)
        → Did value events a x
        → x.result ≡ err c
        → x.events ≡ []
    Did-events value events (ok b, w) x c did h = absurd (ground (arith, did.1, h))
    Did-events value events (err f, w) x c did h = did.2

    DidOne-events :
        (device : Device) (request : DeviceCommandRequest V) (r : ResolvedCommand V) (w : W)
        (x : Executed V W) (c : CommandError)
        → DidOne env device request r w x
        → x.result ≡ err c
        → x.events ≡ []
    DidOne-events device request (getting p) w x c did h = Did-events _ _ _ x c did h
    DidOne-events device request (setting p) w x c did h = Did-events _ _ _ x c did h
    DidOne-events device request (acting a) w x c did h = Did-events _ _ _ x c did h

    -- A command that ends with an error announces no change, wherever the error comes from.
    pub execute-events :
        (request : DeviceCommandRequest V) (w : W) (x : CommandError)
        → (execute env request w).result ≡ err x
        → (execute env request w).events ≡ []
    execute-events request w x h = elim (execute-Contained request w) [
      | inl (same, silence) ↦ silence
      | inr (device, spec, r, f, g, a, did) ↦
          DidOne-events device request r w (execute env request w) x did h
    ]
