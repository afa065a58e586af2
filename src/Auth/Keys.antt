-- ===== src/Auth/Keys.antt =====
-- packages/auth/src: IKeySource.ts, keys/StaticKeySource.ts, keys/RemoteJwksSource.ts,
-- keys/createKeySource.ts, and the rows of schemas/auth.schema.ts that they read.
-- `jose` is a parameter: `encode` is the `TextEncoder`, `import_spki` is `importSPKI`, and `remote`
-- is the resolver that `createRemoteJWKSet` returns for a key's configuration.
pub mod Lookup
use iot_miniservers.Prelude.{
  ℕ, Bool, true, false, not, Option, none, some, List, [], ◌∷◌, Text, text, starts_with,
  if◌then◌else◌, is_some, ◌==◌, text_eq, ◌&&◌,
}
use iot_miniservers.Prelude.Dict
use iot_miniservers.Prelude.Dict.{Dict}
use iot_miniservers.Prelude.Result.{Result, ok, err}
use iot_miniservers.Auth.Outcome.{PrincipalKind}

pub record StaticKey : Type 0 where
  pub algorithm : Text
  pub value : Text

pub data JwksAuth : Type 0 where
  no_auth service_account_token : JwksAuth

pub record JwksKey : Type 0 where
  pub uri : Text
  pub auth : JwksAuth
  pub algorithms : List Text
  pub cache_ttl_seconds : ℕ
  pub refresh_cooldown_ms : ℕ
  pub timeout_ms : ℕ

pub data KeyConfig : Type 0 where
  static_key : StaticKey → KeyConfig
  jwks_key : JwksKey → KeyConfig

pub record TrustedIssuer : Type 0 where
  pub name : Text
  pub issuer : Text
  pub audience : Text
  pub key : KeyConfig
  pub subject_kind : PrincipalKind
  pub roles_claim : Text

pub record KeyLookup : Type 0 where
  pub issuer : Text
  pub kid : Option Text
  pub algorithm : Option Text

-- What `getKey` throws. All but `source_failed` are `UnresolvableKeyError`s.
pub data KeyError : Type 0 where
  unknown_static_issuer : Text → KeyError
  static_algorithm_mismatch : Text → Text → Text → KeyError
  no_jwks_configured : Text → KeyError
  no_matching_key : Text → KeyError
  no_source_configured : Text → KeyError
  source_failed : Text → KeyError

abbrev pub is_unresolvable : KeyError → Bool
is_unresolvable (source_failed message) = false
is_unresolvable _ = true

-- How the resolver of `createRemoteJWKSet` fails: by `JWKSNoMatchingKey` or
-- `JWKSMultipleMatchingKeys`, or in another way. Each has its message.
pub data JwksFailure : Type 0 where
  no_match : Text → JwksFailure
  multiple_matches : Text → JwksFailure
  other_failure : Text → JwksFailure

pub record KeyLibrary (Key : Type 0) : Type 0 where
  pub encode : Text → Key
  pub import_spki : Text → Text → Result Text Key
  pub remote : JwksKey → Option Text → Option Text → Result JwksFailure Key

-- `new Map(rows.map(row => [row.issuer, value]))`: a later row replaces an earlier one.
module _ {V : Type 0} where
  unfoldable pub put_row : (TrustedIssuer → Option V) → TrustedIssuer → Dict Text V → Dict Text V
  put_row select row table = elim (select row) [
    | none ↦ table
    | some v ↦ Dict.insert row.issuer v table
  ]

  unfoldable pub by_issuer :
      (TrustedIssuer → Option V) → List TrustedIssuer → Dict Text V → Dict Text V
  by_issuer select [] table = table
  by_issuer select (row ∷ rows) table = by_issuer select rows (put_row select row table)

abbrev pub static_of : TrustedIssuer → Option StaticKey
static_of row = elim row.key [ static_key k ↦ some k | jwks_key k ↦ none ]

abbrev pub jwks_of : TrustedIssuer → Option JwksKey
jwks_of row = elim row.key [ static_key k ↦ none | jwks_key k ↦ some k ]

-- `CompositeKeySource` with its two sources: the tables are fixed, the imported keys accumulate.
pub record KeySource (Key : Type 0) : Type 0 where
  pub static_table : Dict Text StaticKey
  pub imported : Dict Text Key
  pub jwks_table : Dict Text JwksKey

abbrev pub mismatches : Option Text → StaticKey → Bool
mismatches none key = false
mismatches (some algorithm) key = not (algorithm == key.algorithm)

abbrev pub received : Option Text → Text
received none = []
received (some algorithm) = algorithm

module _ {Key : Type 0} (lib : KeyLibrary Key) where
  unfoldable pub create_key_source : List TrustedIssuer → KeySource Key
  create_key_source issuers = record {
    static_table = by_issuer static_of issuers [];
    imported = [];
    jwks_table = by_issuer jwks_of issuers [];
  }

  -- `#import` of `StaticKeySource`, past its cache.
  unfoldable pub import_fresh : StaticKey → Result KeyError Key
  import_fresh key =
      if starts_with key.algorithm (text "HS")
      then ok (lib.encode key.value)
      else elim (lib.import_spki key.value key.algorithm) [
        | ok k ↦ ok k
        | err m ↦ err (source_failed m)
      ]

  unfoldable pub import_key : Text → StaticKey → KeySource Key → Result KeyError Key × KeySource Key
  import_key issuer key s = elim (Dict.get issuer s.imported) [
    | some cached ↦ (ok cached, s)
    | none ↦ elim (import_fresh key) [
      | ok k ↦ (ok k, record s { imported = Dict.insert issuer k s.imported })
      | err e ↦ (err e, s)
    ]
  ]

  unfoldable pub static_get_key : KeyLookup → KeySource Key → Result KeyError Key × KeySource Key
  static_get_key q s = elim (Dict.get q.issuer s.static_table) [
    | none ↦ (err (unknown_static_issuer q.issuer), s)
    | some key ↦
        if mismatches q.algorithm key
        then (err (static_algorithm_mismatch q.issuer key.algorithm (received q.algorithm)), s)
        else import_key q.issuer key s
  ]

  -- `RemoteJwksSource.getKey`: the failures that blame the token are told from the others.
  unfoldable pub remote_get_key : KeyLookup → KeySource Key → Result KeyError Key
  remote_get_key q s = elim (Dict.get q.issuer s.jwks_table) [
    | none ↦ err (no_jwks_configured q.issuer)
    | some key ↦ elim (lib.remote key q.algorithm q.kid) [
      | ok k ↦ ok k
      | err f ↦ elim f [
        | no_match m ↦ err (no_matching_key m)
        | multiple_matches m ↦ err (no_matching_key m)
        | other_failure m ↦ err (source_failed m)
      ]
    ]
  ]

  unfoldable pub get_key : KeyLookup → KeySource Key → Result KeyError Key × KeySource Key
  unfolding static_get_key remote_get_key
  get_key q s =
      if is_some (Dict.get q.issuer s.static_table)
      then static_get_key q s
      else if is_some (Dict.get q.issuer s.jwks_table)
      then (remote_get_key q s, s)
      else (err (no_source_configured q.issuer), s)
