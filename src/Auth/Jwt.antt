-- ===== src/Auth/Jwt.antt =====
-- packages/auth/src/verifiers/JwtVerifier.ts. `jose` and the string helper `isNotEmpty` of
-- @radoslavirha/utils are parameters. A verifier keeps the key source, so `verify` returns it too.
pub mod Bearer
pub mod Verdict
use iot_miniservers.Prelude.{
  ℕ, ◌+◌, Bool, true, false, not, Option, none, some, List, [], ◌∷◌, ◌++◌, Text, text, every,
  if◌then◌else◌, ◌==◌, text_eq, ◌&&◌, ◌||◌, leb, nat_eqb, reverse,
}
use iot_miniservers.Prelude.Dict
use iot_miniservers.Prelude.Dict.{Dict}
use iot_miniservers.Prelude.Result.{Result, ok, err}
use iot_miniservers.Auth.Outcome.{
  Principal, RefusalReason, missing, invalid, wrong_audience, unknown_issuer, indeterminate,
  VerificationOutcome, verified, refused, CredentialSource,
}
use iot_miniservers.Auth.Keys.{
  KeyConfig, static_key, jwks_key, TrustedIssuer, KeyError, is_unresolvable, KeyLookup, KeyLibrary,
  KeySource, by_issuer, get_key, create_key_source, unknown_static_issuer,
  static_algorithm_mismatch, no_jwks_configured, no_matching_key, no_source_configured,
  source_failed,
}

-- A claim of a payload, as far as the verifier looks into it.
pub data Entry : Type 0 where
  str : Text → Entry
  other_entry : Entry

pub data Claim : Type 0 where
  absent : Claim
  string : Text → Claim
  array : List Entry → Claim
  other_claim : Claim

pub record Payload : Type 0 where
  pub sub : Option Text
  pub claim : Text → Claim

pub record Header : Type 0 where
  pub alg : Option Text
  pub kid : Option Text

pub record VerifyOptions : Type 0 where
  pub issuer : Text
  pub audience : Text
  pub algorithms : List Text

-- How `jwtVerify` fails: a claim that does not validate, with its name, or in another way.
pub data JwtFailure : Type 0 where
  claim_failed : Text → Text → JwtFailure
  other_failure : Text → JwtFailure

pub record Jose (Key : Type 0) : Type 0 where
  pub keys : KeyLibrary Key
  pub decode_issuer : Text → Result Text (Option Text)
  pub decode_header : Text → Result Text Header
  pub jwt_verify : Text → Key → VerifyOptions → Result JwtFailure Payload
  pub is_not_empty : Text → Bool

pub record JwtVerifier (Key : Type 0) : Type 0 where
  pub by_issuer : Dict Text TrustedIssuer
  pub keys : KeySource Key

-- The white space and line ends of ECMAScript, which `trim` and `\s` share.
unfoldable pub is_space : ℕ → Bool
is_space c =
    (leb 9 c && leb c 13)
    || nat_eqb c 32
    || nat_eqb c 160
    || nat_eqb c 5760
    || (leb 8192 c && leb c 8202)
    || nat_eqb c 8232
    || nat_eqb c 8233
    || nat_eqb c 8239
    || nat_eqb c 8287
    || nat_eqb c 12288
    || nat_eqb c 65279

unfoldable pub trim_start : Text → Text
trim_start [] = []
trim_start (c ∷ s) = elim (is_space c) [ true ↦ trim_start s | false ↦ c ∷ s ]

unfoldable pub trim : Text → Text
trim s = reverse (trim_start (reverse (trim_start s)))

-- `s.split(/\s+/)`: `word` is what has been read of the current piece, `gap` tells that the
-- separator is being read.
unfoldable pub split_from : Bool → Text → Text → List Text
split_from gap word [] = word ∷ []
split_from gap word (c ∷ s) = elim (is_space c) [
  | false ↦ split_from false (word ++ c ∷ []) s
  | true ↦ elim gap [ true ↦ split_from true word s | false ↦ word ∷ split_from true [] s ]
]

-- `toLowerCase`, exact for a comparison with an ASCII word that has neither `i` nor `k`.
abbrev pub lower : ℕ → ℕ
lower c = if leb 65 c && leb c 90 then c + 32 else c

abbrev pub lower_case : Text → Text
lower_case [] = []
lower_case (c ∷ s) = lower c ∷ lower_case s

abbrev pub join : List Text → Text
join [] = []
join (w ∷ []) = w
join (w ∷ v ∷ ws) = w ++ 32 ∷ join (v ∷ ws)

abbrev pub bearer_token : List Text → Option Text
bearer_token [] = none
bearer_token (scheme ∷ []) = none
bearer_token (scheme ∷ word ∷ rest) =
    if lower_case scheme == text "bearer" then some (join (word ∷ rest)) else none

unfoldable pub of_header : (Text → Bool) → Option Text → Option Text
of_header is_not_empty none = none
of_header is_not_empty (some header) =
    if is_not_empty header then bearer_token (split_from false [] (trim header)) else none

-- `typeof` tests over an array of roles.
abbrev strings_of : List Entry → List Text
strings_of [] = []
strings_of (str s ∷ es) = s ∷ strings_of es
strings_of (other_entry ∷ es) = strings_of es

unfoldable pub roles_from : Payload → Text → List Text
roles_from payload name = elim (payload.claim name) [ array es ↦ strings_of es | _ ↦ [] ]

unfoldable pub to_principal : Payload → Text → TrustedIssuer → Principal
unfolding roles_from
to_principal payload subject row = record {
  subject = subject;
  kind = row.subject_kind;
  display_name = elim (payload.claim (text "preferred_username")) [ string s ↦ some s | _ ↦ none ];
  roles = roles_from payload row.roles_claim;
  issuer = row.issuer;
}

unfoldable pub algorithms_for : TrustedIssuer → List Text
algorithms_for row = elim row.key [ static_key k ↦ k.algorithm ∷ [] | jwks_key k ↦ k.algorithms ]

unfoldable pub message_of_key : KeyError → Text
message_of_key (unknown_static_issuer i) =
    text "No static key configured for issuer " ++ (i ++ text ".")
message_of_key (static_algorithm_mismatch i expected received) =
    text "Issuer "
    ++ (i
        ++ (text " is configured for "
            ++ (expected ++ (text ", token used " ++ (received ++ text ".")))))
message_of_key (no_jwks_configured i) = text "No JWKS configured for issuer " ++ (i ++ text ".")
message_of_key (no_matching_key m) = m
message_of_key (no_source_configured i) =
    text "No key source configured for issuer " ++ (i ++ text ".")
message_of_key (source_failed m) = m

abbrev refusal_with : RefusalReason → Text → VerificationOutcome
refusal_with reason detail = refused (record { reason = reason; detail = some detail })

module _ {Key : Type 0} (lib : Jose Key) where
  unfoldable pub create : List TrustedIssuer → JwtVerifier Key
  create issuers = record {
    by_issuer = by_issuer (λ row. some row) issuers [];
    keys = create_key_source lib.keys issuers;
  }

  unfoldable pub extract : CredentialSource → Option Text
  extract source = of_header lib.is_not_empty (source.header (text "authorization"))

  -- The last `try` of `verify`: what `jwtVerify` answers, and the subject that it must carry.
  unfoldable pub judge_sub : TrustedIssuer → Payload → Option Text → VerificationOutcome
  judge_sub row payload none = refusal_with invalid (text "token carries no sub claim")
  judge_sub row payload (some sub) =
      if lib.is_not_empty sub
      then verified (to_principal payload sub row)
      else refusal_with invalid (text "token carries no sub claim")

  unfoldable pub judge : TrustedIssuer → Result JwtFailure Payload → VerificationOutcome
  unfolding judge_sub
  judge row (ok payload) = judge_sub row payload payload.sub
  judge row (err (claim_failed name message)) =
      if name == text "aud"
      then refusal_with wrong_audience message
      else refusal_with invalid message
  judge row (err (other_failure message)) = refusal_with invalid message

  unfoldable pub options_for : TrustedIssuer → VerifyOptions
  options_for row = record {
    issuer = row.issuer;
    audience = row.audience;
    algorithms = algorithms_for row;
  }

  -- What follows `getKey`.
  unfoldable pub with_key : Text → TrustedIssuer → Result KeyError Key → VerificationOutcome
  unfolding judge
  with_key credential row (ok key) = judge row (lib.jwt_verify credential key (options_for row))
  with_key credential row (err e) =
      refusal_with (if is_unresolvable e then invalid else indeterminate) (message_of_key e)

  -- The key of an issuer is asked for only when a row trusts it.
  unfoldable pub verify_issued :
      Text
      → Text
      → Header
      → JwtVerifier Key
      → Option TrustedIssuer
      → VerificationOutcome × JwtVerifier Key
  unfolding with_key
  verify_issued credential issuer header v none =
      (refusal_with unknown_issuer (text "no trusted issuer matches " ++ issuer), v)
  verify_issued credential issuer header v (some row) =
      let (answer, keys) =
        get_key lib.keys (record { issuer = issuer; kid = header.kid; algorithm = header.alg })
          v.keys in
      (with_key credential row answer, record v { keys = keys })

  unfoldable pub verify_decoded :
      Text
      → JwtVerifier Key
      → Result Text (Option Text)
      → Result Text Header
      → VerificationOutcome × JwtVerifier Key
  unfolding verify_issued
  verify_decoded credential v (err m) header = (refusal_with invalid m, v)
  verify_decoded credential v (ok claimed) (err m) = (refusal_with invalid m, v)
  verify_decoded credential v (ok none) (ok header) =
      (refusal_with invalid (text "token carries no iss claim"), v)
  verify_decoded credential v (ok (some issuer)) (ok header) =
      verify_issued credential issuer header v (Dict.get issuer v.by_issuer)

  unfoldable pub verify : Text → JwtVerifier Key → VerificationOutcome × JwtVerifier Key
  unfolding verify_decoded
  verify credential v =
      if trim credential == []
      then (refused (record { reason = missing; detail = none }), v)
      else verify_decoded credential v (lib.decode_issuer credential) (lib.decode_header credential)
