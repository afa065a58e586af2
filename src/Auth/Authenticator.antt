-- ===== src/Auth/Authenticator.antt =====
-- packages/auth/src/Authenticator.ts. A verifier's promise is its answer; the counter's additions
-- come back beside the result, in order.
pub mod Decision
use iot_miniservers.Prelude.{
  ℕ, Bool, not, true, Option, none, some, List, [], ◌∷◌, ◌++◌, Text, text, find, head?,
  if◌then◌else◌, text_eq,
}
use iot_miniservers.Prelude.Dict
use iot_miniservers.Prelude.Dict.{Dict}
use iot_miniservers.Prelude.Result.{Result, ok, err, ◌>>=◌}
use iot_miniservers.Auth.Outcome.{
  Principal, RefusalReason, VerificationReason, verified_ok, refusal, RefusedOutcome,
  VerificationOutcome, verified, refused, CredentialSource, TokenVerifier, Verification,
  is_indeterminate, is_missing, indeterminate, record_verification,
}

pub data AuthDecision : Type 0 where
  allowed : Principal → AuthDecision
  denied : RefusalReason → ℕ → Option Text → AuthDecision

-- What `authenticate` throws. `type_error` is `failures[0]!` read of an empty list.
pub data AuthError : Type 0 where
  no_method_named : AuthError
  no_verifier : Text → AuthError
  type_error : AuthError

abbrev pub AuthVerifiers : Type 0
AuthVerifiers = Dict Text TokenVerifier

unfoldable pub status_for_reason : VerificationReason → ℕ
status_for_reason verified_ok = 200
status_for_reason (refusal indeterminate) = 503
status_for_reason (refusal _) = 401

-- `a ?? b`.
abbrev nullish {ℓ} : {A : Type ℓ} → Option A → Option A → Option A
nullish none b = b
nullish (some a) b = some a

unfoldable pub most_telling : List RefusedOutcome → Option RefusedOutcome
most_telling failures =
    nullish (find (λ f. is_indeterminate f.reason) failures)
      (nullish (find (λ f. not (is_missing f.reason)) failures) (head? failures))

-- The map over `methods`: the first name without a verifier throws.
unfoldable pub resolve : AuthVerifiers → List Text → Result AuthError (List TokenVerifier)
unfolding Dict.get
resolve verifiers [] = ok []
resolve verifiers (method ∷ methods) = elim (Dict.get method verifiers) [
  | none ↦ err (no_verifier method)
  | some verifier ↦ resolve verifiers methods >>= λ chain. ok (verifier ∷ chain)
]

-- `verifier.verify(verifier.extract(source) ?? '')`.
unfoldable pub attempt : CredentialSource → TokenVerifier → VerificationOutcome
attempt source v = v.verify (elim (v.extract source) [ none ↦ [] | some c ↦ c ])

unfoldable pub refusal_of : Option RefusedOutcome → Result AuthError AuthDecision
unfolding status_for_reason
refusal_of none = err type_error
refusal_of (some worst) =
    ok (denied worst.reason (status_for_reason (refusal worst.reason)) worst.detail)

-- The loop over the chain with the failures so far.
unfoldable pub try_chain :
    CredentialSource
    → List TokenVerifier
    → List RefusedOutcome
    → Result AuthError AuthDecision × List Verification
try_chain source [] failures = (refusal_of (most_telling failures), [])
try_chain source (v ∷ chain) failures = elim (attempt source v) [
  | verified p ↦ (ok (allowed p), record_verification (verified p) ∷ [])
  | refused r ↦
      let rest = try_chain source chain (failures ++ r ∷ []) in
      (rest.0, record_verification (refused r) ∷ rest.1)
]

unfoldable pub run_chain :
    CredentialSource
    → Result AuthError (List TokenVerifier)
    → Result AuthError AuthDecision × List Verification
run_chain source (err e) = (err e, [])
run_chain source (ok chain) = try_chain source chain []

unfoldable pub authenticate :
    AuthVerifiers → CredentialSource → List Text → Result AuthError AuthDecision × List Verification
unfolding run_chain
authenticate verifiers source [] = (err no_method_named, [])
authenticate verifiers source (method ∷ methods) =
    run_chain source (resolve verifiers (method ∷ methods))
