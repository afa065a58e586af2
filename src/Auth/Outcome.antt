-- ===== src/Auth/Outcome.antt =====
-- packages/auth/src: Principal.ts, VerificationOutcome.ts, CredentialSource.ts, ITokenVerifier.ts,
-- authTelemetry.ts. Strings are texts; an optional property is an `Option`.
use iot_miniservers.Prelude.{Bool, true, false, Option, none, some, List, Text}

pub data PrincipalKind : Type 0 where
  human service device : PrincipalKind

pub record Principal : Type 0 where
  pub subject : Text
  pub kind : PrincipalKind
  pub display_name : Option Text
  pub roles : List Text
  pub issuer : Text

-- `Exclude<VerificationReason, 'ok'>`.
pub data RefusalReason : Type 0 where
  missing invalid wrong_audience unknown_issuer indeterminate : RefusalReason

pub data VerificationReason : Type 0 where
  verified_ok : VerificationReason
  refusal : RefusalReason → VerificationReason

pub record RefusedOutcome : Type 0 where
  pub reason : RefusalReason
  pub detail : Option Text

pub data VerificationOutcome : Type 0 where
  verified : Principal → VerificationOutcome
  refused : RefusedOutcome → VerificationOutcome

-- What a verifier may ask of a request: its headers.
pub record CredentialSource : Type 0 where
  pub header : Text → Option Text

-- The interface of a verifier, with the answer that its promise resolves to.
pub record TokenVerifier : Type 0 where
  pub extract : CredentialSource → Option Text
  pub verify : Text → VerificationOutcome

-- One addition to the `auth.verifications` counter: its outcome and its issuer attributes.
pub record Verification : Type 0 where
  pub outcome : VerificationReason
  pub issuer : Option Text

abbrev pub is_indeterminate : RefusalReason → Bool
is_indeterminate indeterminate = true
is_indeterminate _ = false

abbrev pub is_missing : RefusalReason → Bool
is_missing missing = true
is_missing _ = false

unfoldable pub reason_of : VerificationOutcome → VerificationReason
reason_of (verified p) = verified_ok
reason_of (refused r) = refusal r.reason

unfoldable pub issuer_of : VerificationOutcome → Option Text
issuer_of (verified p) = some p.issuer
issuer_of (refused r) = none

-- `recordVerification(outcome.reason, issuerOf(outcome))`.
unfoldable pub record_verification : VerificationOutcome → Verification
unfolding reason_of issuer_of
record_verification o = record { outcome = reason_of o; issuer = issuer_of o }
