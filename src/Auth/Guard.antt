-- ===== src/Auth/Guard.antt =====
-- packages/tsed-auth/src/AuthGuard.ts. `JSON.parse` and `isNotEmpty` of @radoslavirha/utils are
-- parameters; the request's context is the principal parked on it.
use iot_miniservers.Prelude.{
  ◌≡◌, refl, Bool, true, false, Option, none, some, List, [], ◌∷◌, Text, any, every, arith,
  if◌then◌else◌, ◌==◌, text_eq,
}
use iot_miniservers.Prelude.Result.{Result, ok, err}
use iot_miniservers.Auth.Outcome.{
  Principal, RefusalReason, CredentialSource, Verification, is_indeterminate,
}
use iot_miniservers.Auth.Authenticator.{
  AuthDecision, allowed, denied, AuthError, AuthVerifiers, authenticate,
}

pub data JsonItem : Type 0 where
  str : Text → JsonItem
  other_item : JsonItem

pub data Json : Type 0 where
  array : List JsonItem → Json
  other_json : Json

pub record GuardLibrary : Type 0 where
  pub parse : Text → Option Json
  pub is_not_empty : Text → Bool

pub record AuthGuardOptions : Type 0 where
  pub anonymous : Option Bool
  pub methods : Option Text
  pub roles : Option (List (List Text))

pub record Context : Type 0 where
  pub principal : Option Principal

pub data GuardError : Type 0 where
  no_auth_method : GuardError
  authenticator_failed : AuthError → GuardError
  service_unavailable : GuardError
  unauthorized : GuardError
  forbidden : GuardError

abbrev pub Guarded : Type 0
Guarded = Result GuardError (Unit {0}) × Context × List Verification

module _ (lib : GuardLibrary) where
  abbrev names : List JsonItem → List Text
  names [] = []
  names (str m ∷ items) = let rest = names items in if lib.is_not_empty m then m ∷ rest else rest
  names (other_item ∷ items) = names items

  abbrev parsed_methods : Option Json → List Text
  parsed_methods none = []
  parsed_methods (some (array items)) = names items
  parsed_methods (some other_json) = []

  unfoldable pub decode_methods : Option Text → List Text
  decode_methods none = []
  decode_methods (some encoded) =
      if lib.is_not_empty encoded then parsed_methods (lib.parse encoded) else []

  unfoldable pub satisfies : Principal → List (List Text) → Bool
  satisfies p requirements =
      every
        (λ any_of. elim any_of [
          | [] ↦ true
          | role ∷ roles ↦ any (λ wanted. any (λ held. held == wanted) p.roles) (role ∷ roles)
        ])
        requirements

  unfoldable pub exception_for : RefusalReason → GuardError
  exception_for reason = if is_indeterminate reason then service_unavailable else unauthorized

  abbrev pub meets : Principal → Option (List (List Text)) → Bool
  meets p none = true
  meets p (some requirements) = satisfies p requirements

  abbrev pub is_true : Option Bool → Bool
  is_true none = false
  is_true (some b) = b

  -- What follows the decision: the principal is parked before the roles are looked at.
  unfoldable pub apply :
      Option (List (List Text))
      → Result AuthError AuthDecision × List Verification
      → Context
      → Guarded
  unfolding exception_for
  apply roles (err e, records) ctx = (err (authenticator_failed e), ctx, records)
  apply roles (ok (denied reason status detail), records) ctx =
      (err (exception_for reason), ctx, records)
  apply roles (ok (allowed p), records) ctx =
      (if meets p roles then ok tt else err forbidden, record { principal = some p }, records)

  unfoldable pub guard_methods :
      AuthVerifiers → CredentialSource → List Text → Option (List (List Text)) → Context → Guarded
  unfolding apply
  guard_methods verifiers source [] roles ctx = (err no_auth_method, ctx, [])
  guard_methods verifiers source (m ∷ ms) roles ctx =
      apply roles (authenticate verifiers source (m ∷ ms)) ctx

  -- `use`: `options` is what the endpoint's store holds for the guard.
  unfoldable pub use_guard :
      AuthVerifiers → CredentialSource → Option AuthGuardOptions → Context → Guarded
  unfolding guard_methods
  use_guard verifiers source none ctx = (err no_auth_method, ctx, [])
  use_guard verifiers source (some options) ctx =
      if is_true options.anonymous
      then (ok tt, ctx, [])
      else guard_methods verifiers source (decode_methods options.methods) options.roles ctx

  guard_methods-admits :
      (verifiers : AuthVerifiers) (source : CredentialSource) (methods : List Text)
      (roles : Option (List (List Text))) (ctx : Context)
      → (guard_methods verifiers source methods roles ctx).0 ≡ ok tt
      → (p : Principal) × ((authenticate verifiers source methods).0 ≡ ok (allowed p))
        × (meets p roles ≡ true)
        × ((guard_methods verifiers source methods roles ctx).1.principal ≡ some p)
  unfolding guard_methods
  guard_methods-admits verifiers source [] roles ctx h = ground arith
  guard_methods-admits verifiers source (m ∷ ms) roles ctx h =
      judged (authenticate verifiers source (m ∷ ms)) refl h
    where
      judged :
          (r : Result AuthError AuthDecision × List Verification)
          → authenticate verifiers source (m ∷ ms) ≡ r
          → (apply roles r ctx).0 ≡ ok tt
          → (p : Principal) × (r.0 ≡ ok (allowed p))
            × (meets p roles ≡ true)
            × ((apply roles r ctx).1.principal ≡ some p)
      judged (err e, records) k g = ground arith
      judged (ok (denied reason status detail), records) k g = ground arith
      judged (ok (allowed p), records) k g = (p, refl, ground arith, refl)

  -- A guarded endpoint that is not anonymous runs only for a principal that the authenticator
  -- allowed by the methods of the endpoint and who holds, of every non-empty role requirement,
  -- at least one role; and that principal is the one parked on the context.
  pub use_guard-admits :
      (verifiers : AuthVerifiers) (source : CredentialSource) (options : AuthGuardOptions)
      (ctx : Context)
      → is_true options.anonymous ≡ false
      → (use_guard verifiers source (some options) ctx).0 ≡ ok tt
      → (p : Principal) × ((authenticate verifiers source (decode_methods options.methods)).0
          ≡ ok (allowed p))
        × (meets p options.roles ≡ true)
        × ((use_guard verifiers source (some options) ctx).1.principal ≡ some p)
  unfolding use_guard
  use_guard-admits verifiers source options ctx closed h = rw closed (
      guard_methods-admits verifiers source (decode_methods options.methods) options.roles ctx
        (ground (arith, h)))
