-- ===== src/Tests/Auth.antt =====
-- packages/auth and packages/tsed-auth at concrete inputs.
use iot_miniservers.Prelude.{
  ◌≡◌, ◌↔◌, refl, Bool, true, false, not, none, some, [], ◌∷◌, Text, text, every, map, text_eq,
  ◌==◌, is_some,
}
use iot_miniservers.Prelude.Dict
use iot_miniservers.Prelude.Dict.{Dict}
use iot_miniservers.Prelude.Result.{ok, err}
use iot_miniservers.Auth.Outcome.{
  Principal, human, RefusalReason, missing, indeterminate, RefusedOutcome, VerificationOutcome,
  verified, refused, CredentialSource, TokenVerifier,
}
use iot_miniservers.Auth.Authenticator.{
  allowed, denied, AuthVerifiers, resolve, attempt, authenticate, try_chain, run_chain, refusal_of,
  most_telling, status_for_reason,
}
use iot_miniservers.Auth.Authenticator.Decision.{
  first_verified, Denial, authenticate-allowed, authenticate-denied,
}
use iot_miniservers.Auth.Keys.{
  static_key, TrustedIssuer, KeyLookup, KeyLibrary, JwksFailure, KeySource, by_issuer, put_row,
  get_key, create_key_source, import_key, import_fresh,
}
use iot_miniservers.Auth.Keys.Lookup.{IsFaithful, IsFaithful-create, get_key-IsFaithful}
use iot_miniservers.Auth.Jwt.{
  Payload, absent, Jose, JwtVerifier, verify, trim, trim_start, is_space, to_principal,
  message_of_key,
}
use iot_miniservers.Auth.Jwt.Verdict.{Vouched, verify-Vouched}
use iot_miniservers.Auth.Jwt.Bearer.{no_space}
use iot_miniservers.Auth.Guard.{
  AuthGuardOptions, Context, GuardLibrary, array, str, meets, decode_methods, satisfies, use_guard,
  use_guard-admits,
}

abbrev alice : Principal
alice = record {
  subject = text "alice";
  kind = human;
  display_name = none;
  roles = text "admin" ∷ [];
  issuer = text "idp";
}

abbrev refusing : RefusalReason → VerificationOutcome
refusing reason = refused (record { reason = reason; detail = none })

abbrev stub : VerificationOutcome → TokenVerifier
stub o = record { extract = λ s. none; verify = λ c. o }

abbrev source : CredentialSource
source = record { header = λ name. none }

abbrev verifiers : AuthVerifiers
verifiers =
    (text "none", stub (refusing missing))
    ∷ (text "down", stub (refusing indeterminate))
    ∷ (text "good", stub (verified alice))
    ∷ []

good_chain :
    resolve verifiers (text "down" ∷ text "good" ∷ [])
    ≡ ok (stub (refusing indeterminate) ∷ stub (verified alice) ∷ [])
unfolding resolve Dict.get
good_chain = refl

bad_chain :
    resolve verifiers (text "down" ∷ text "none" ∷ [])
    ≡ ok (stub (refusing indeterminate) ∷ stub (refusing missing) ∷ [])
unfolding resolve Dict.get
bad_chain = refl

-- An outage behind a missing credential is answered 503.
down_is_503 :
    (authenticate verifiers source (text "down" ∷ text "none" ∷ [])).0
    ≡ ok (denied indeterminate 503 none)
unfolding authenticate run_chain resolve Dict.get try_chain attempt refusal_of most_telling
    status_for_reason
down_is_503 = refl

authenticate-allowed_example :
    ((authenticate verifiers source (text "down" ∷ text "good" ∷ [])).0 ≡ ok (allowed alice)) ↔ (
      first_verified
        (map (attempt source) (stub (refusing indeterminate) ∷ stub (verified alice) ∷ []))
      ≡ some alice)
authenticate-allowed_example =
    authenticate-allowed verifiers source (text "down") (text "good" ∷ [])
      (stub (refusing indeterminate) ∷ stub (verified alice) ∷ []) good_chain alice

none_verified :
    first_verified
      (map (attempt source) (stub (refusing indeterminate) ∷ stub (refusing missing) ∷ []))
    ≡ none
unfolding attempt
none_verified = refl

authenticate-denied_example :
    Denial
      (map (attempt source) (stub (refusing indeterminate) ∷ stub (refusing missing) ∷ []))
      (authenticate verifiers source (text "down" ∷ text "none" ∷ [])).0
authenticate-denied_example =
    authenticate-denied verifiers source (text "down") (text "none" ∷ [])
      (stub (refusing indeterminate) ∷ stub (refusing missing) ∷ []) bad_chain none_verified

known_good : every (λ m. is_some (Dict.get m verifiers)) (text "good" ∷ []) ≡ true
unfolding Dict.get
known_good = refl

unknown_typo : Dict.get (text "typo") verifiers ≡ none
unfolding Dict.get
unknown_typo = refl

abbrev row : Text → Text → TrustedIssuer
row audience algorithm = record {
  name = text "IdP";
  issuer = text "idp";
  audience = audience;
  key = static_key (record { algorithm = algorithm; value = text "secret" });
  subject_kind = human;
  roles_claim = text "roles";
}

-- Keys are texts here; an SPKI import fails, and so does every JWKS.
abbrev library : KeyLibrary Text
library = record {
  encode = λ value. value;
  import_spki = λ value algorithm. err (text "bad key");
  remote = λ key algorithm kid. err (JwksFailure.other_failure (text "unreachable"));
}

abbrev fresh_keys : Text → KeySource Text
fresh_keys algorithm = record {
  static_table = (text "idp", record { algorithm = algorithm; value = text "secret" }) ∷ [];
  imported = [];
  jwks_table = [];
}

abbrev asked : KeyLookup
asked = record { issuer = text "idp"; kid = none; algorithm = some (text "HS256") }

abbrev after_asking : KeySource Text
after_asking = record (fresh_keys (text "HS256")) { imported = (text "idp", text "secret") ∷ [] }

released : get_key library asked (fresh_keys (text "HS256")) ≡ (ok (text "secret"), after_asking)
unfolding get_key import_key import_fresh Dict.get Dict.insert
released = refl

held_key :
    Dict.get (text "idp") (fresh_keys (text "HS256")).static_table
    ≡ some (record { algorithm = text "HS256"; value = text "secret" })
unfolding Dict.get
held_key = refl

created : create_key_source library (row (text "a") (text "HS256") ∷ []) ≡ fresh_keys (text "HS256")
unfolding create_key_source by_issuer put_row Dict.insert
created = refl

abbrev one_issuer : KeySource Text
one_issuer = create_key_source library (row (text "a") (text "HS256") ∷ [])

IsFaithful-after : IsFaithful library (get_key library asked one_issuer).1
IsFaithful-after =
    get_key-IsFaithful library asked one_issuer
      (IsFaithful-create library (row (text "a") (text "HS256") ∷ []))

abbrev present : Text → Bool
present t = not (t == [])

abbrev payload : Payload
payload = record { sub = some (text "alice"); claim = λ name. absent }

abbrev jose : Jose Text
jose = record {
  keys = library;
  decode_issuer = λ c. ok (some (text "idp"));
  decode_header = λ c. ok (record { alg = none; kid = none });
  jwt_verify = λ c k o. ok payload;
  is_not_empty = present;
}

abbrev verifier : Text → JwtVerifier Text
verifier algorithm = record {
  by_issuer = (text "idp", row (text "a") algorithm) ∷ [];
  keys = fresh_keys algorithm;
}

token_verifies :
    (verify jose (text "token") (verifier (text "HS256"))).0
    ≡ verified (to_principal payload (text "alice") (row (text "a") (text "HS256")))
unfolding verify trim trim_start is_space Dict.get Dict.insert get_key import_key import_fresh
token_verifies = refl

verify-Vouched_example :
    ((trim (text "token") == []) ≡ false)
    × Vouched jose
        (text "token")
        (verifier (text "HS256"))
        (to_principal payload (text "alice") (row (text "a") (text "HS256")))
verify-Vouched_example =
    verify-Vouched jose (text "token") (verifier (text "HS256"))
      (to_principal payload (text "alice") (row (text "a") (text "HS256"))) token_verifies

abbrev down : RefusedOutcome
down = record { reason = indeterminate; detail = some (text "bad key") }

key_is_broken : (verify jose (text "token") (verifier (text "RS256"))).0 ≡ refused down
unfolding verify trim trim_start is_space Dict.get Dict.insert get_key import_key import_fresh
    message_of_key
key_is_broken = refl

solid : every no_space (text "BEARER") ≡ true
unfolding is_space
solid = refl

spaced : every is_space (text "  ") ≡ true
unfolding is_space
spaced = refl

whole : every no_space (text "abc") ≡ true
unfolding is_space
whole = refl

abbrev guard : GuardLibrary
guard = record { parse = λ t. some (array (str (text "good") ∷ [])); is_not_empty = present }

abbrev admins : AuthGuardOptions
admins = record {
  anonymous = none;
  methods = some (text "[\"good\"]");
  roles = some ((text "admin" ∷ text "owner" ∷ []) ∷ []);
}

abbrev nobody : Context
nobody = record { principal = none }

alice_enters : (use_guard guard verifiers source (some admins) nobody).0 ≡ ok tt
unfolding use_guard decode_methods satisfies authenticate run_chain resolve Dict.get try_chain
    attempt
alice_enters = refl

use_guard-admits_example :
    (p : Principal) × ((authenticate verifiers source (decode_methods guard admins.methods)).0
      ≡ ok (allowed p))
    × (meets guard p admins.roles ≡ true)
    × ((use_guard guard verifiers source (some admins) nobody).1.principal ≡ some p)
use_guard-admits_example = use_guard-admits guard verifiers source admins nobody refl alice_enters
