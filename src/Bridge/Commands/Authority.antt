-- ===== src/Bridge/Commands/Authority.antt =====
-- What a specification lets a request do, against DeviceCommandService.ts `resolveCommand`.
use iot_miniservers.Prelude.{
  ◌≡◌, refl, true, ◌||◌, inl, inr, Option, none, some, Bool-cases, Eq, text_eq,
}
use mathlib.Core.Path.{subst}
use iot_miniservers.Prelude.Dict
use iot_miniservers.Prelude.Result.{Result, ok, err}
use iot_miniservers.Bridge.Commands.{
  MiotProperty, MiotAction, SimplifiedMiotSpec, Operation, get_property, set_property, run_action,
  other_operation, DeviceCommandRequest, ResolvedCommand, getting, setting, acting, CommandError,
  resolve_command, resolve_operation, resolve_get, resolve_set, resolve_action, grants, allows,
  read, write, notify,
}

module _ {V : Type 0} ⦃e : Eq V⦄ where
  -- What a specification lets a request do.
  abbrev pub Authorised : DeviceCommandRequest V → SimplifiedMiotSpec V → ResolvedCommand V → Type 0
  Authorised request spec (getting p) =
      (request.operation ≡ get_property)
      × (Dict.get request.command spec.properties ≡ some p)
      × ((grants p read || grants p notify) ≡ true)
  Authorised request spec (setting p) =
      (request.operation ≡ set_property)
      × (Dict.get request.command spec.properties ≡ some p)
      × (grants p write ≡ true)
      × (allows p request.value ≡ true)
  Authorised request spec (acting a) =
      (request.operation ≡ run_action) × (Dict.get request.command spec.actions ≡ some a)

  abbrev Judged :
      DeviceCommandRequest V
      → SimplifiedMiotSpec V
      → Result CommandError (ResolvedCommand V)
      → Type 0
  Judged request spec (ok r) = Authorised request spec r
  Judged request spec (err error) = Unit {0}

  resolve_get-Judged :
      (request : DeviceCommandRequest V) (spec : SimplifiedMiotSpec V) (p : Option (MiotProperty V))
      → request.operation ≡ get_property
      → Dict.get request.command spec.properties ≡ p
      → Judged request spec (resolve_get request.command p)
  unfolding resolve_get
  resolve_get-Judged request spec none o k = tt
  resolve_get-Judged request spec (some p) o k = elim (Bool-cases (grants p read)) [
    | inl readable ↦ rw readable (o, k, rw readable refl)
    | inr unreadable ↦ elim (Bool-cases (grants p notify)) [
      | inl notified ↦ rw (unreadable, notified) (o, k, rw (unreadable, notified) refl)
      | inr closed ↦ rw (unreadable, closed) tt
    ]
  ]

  resolve_set-Judged :
      (request : DeviceCommandRequest V) (spec : SimplifiedMiotSpec V) (p : Option (MiotProperty V))
      → request.operation ≡ set_property
      → Dict.get request.command spec.properties ≡ p
      → Judged request spec (resolve_set request.command request.value p)
  unfolding resolve_set
  resolve_set-Judged request spec none o k = tt
  resolve_set-Judged request spec (some p) o k = elim (Bool-cases (grants p write)) [
    | inl writable ↦ elim (Bool-cases (allows p request.value)) [
      | inl allowed ↦ rw (writable, allowed) (o, k, writable, allowed)
      | inr other ↦ rw (writable, other) tt
    ]
    | inr closed ↦ rw closed tt
  ]

  resolve_action-Judged :
      (request : DeviceCommandRequest V) (spec : SimplifiedMiotSpec V) (a : Option MiotAction)
      → request.operation ≡ run_action
      → Dict.get request.command spec.actions ≡ a
      → Judged request spec (resolve_action request.command a)
  unfolding resolve_action
  resolve_action-Judged request spec none o k = tt
  resolve_action-Judged request spec (some a) o k = (o, k)

  resolve_operation-Judged :
      (request : DeviceCommandRequest V) (spec : SimplifiedMiotSpec V) (operation : Operation)
      → request.operation ≡ operation
      → Judged request spec (resolve_operation operation request spec)
  unfolding resolve_operation
  resolve_operation-Judged request spec get_property o = resolve_get-Judged request spec _ o refl
  resolve_operation-Judged request spec set_property o = resolve_set-Judged request spec _ o refl
  resolve_operation-Judged request spec run_action o = resolve_action-Judged request spec _ o refl
  resolve_operation-Judged request spec (other_operation name) o = tt

  pub resolve_command-Authorised :
      (request : DeviceCommandRequest V) (spec : SimplifiedMiotSpec V) (r : ResolvedCommand V)
      → resolve_command request spec ≡ ok r
      → Authorised request spec r
  unfolding resolve_command
  resolve_command-Authorised request spec r h =
      subst (λ x. Judged request spec x) h
        (resolve_operation-Judged request spec request.operation refl)
