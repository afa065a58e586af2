-- ===== src/Qr.antt =====
-- apis/qr-manager-api/src: models/QrCode.ts, storage/qr-mongo, mappers/MongoQrCodeMapper.ts and the
-- service of codes in services/QrCodeService.ts. The world W passes what is awaited, the collection of MongoDB
-- among it; the calls of mongoose (with the deserialisation of what it answers), of nanoid and of the mapper base
-- class are parameters. M is what a document holds besides the fields of a code.
pub mod Handlers
pub mod Allocation
pub mod Redirects
use iot_miniservers.Prelude.{
  ℕ, zero, suc, ◌+◌, Bool, true, false, ◌&&◌, Option, none, some, List, [], ◌∷◌, ◌++◌, map, Text,
  text, nat_eqb, ◌==◌, text_eq, if◌then◌else◌,
}
use iot_miniservers.Prelude.Dict
use iot_miniservers.Prelude.Dict.{Dict}
use iot_miniservers.Prelude.Result.{Result, ok, err}

pub data QrType : Type 0 where
  iot_device : QrType
  plant : QrType
  other : QrType

-- What a code and its document have in common. `kind` is the field `type`.
pub record QrFields : Type 0 where
  pub slug : Text
  pub target_url : Text
  pub label : Text
  pub kind : QrType
  pub active : Bool

-- What `create` takes: the fields without the slug.
pub record Entity : Type 0 where
  pub target_url : Text
  pub label : Text
  pub kind : QrType
  pub active : Bool

pub record Base : Type 0 where
  pub id : Text
  pub created_at : ℕ
  pub updated_at : ℕ

pub record QrCode : Type 0 where
  pub base : Base
  pub fields : QrFields

pub record QrCodeMongoDto (M : Type 0) : Type 0 where
  pub document : M
  pub fields : QrFields

pub record QrCodeListFilter : Type 0 where
  pub kind : Option QrType
  pub active : Option Bool

pub record QrCodeUpdate : Type 0 where
  pub target_url : Option Text
  pub label : Option Text
  pub kind : Option QrType
  pub active : Option Bool

-- `key_pattern` tells of each key whether its value is truthy.
pub record MongoLikeError : Type 0 where
  pub code : Option ℕ
  pub key_pattern : Option (Dict Text Bool)

pub data Problem : Type 0 where
  conflict : Text → Problem
  not_found : Text → Problem
  storage : MongoLikeError → Problem

abbrev pub Asked : Type 0 → Type 0 → Type 0
Asked W A = W → Result MongoLikeError A × W

-- The libraries. `slug_lookup` is the policy that lookups of slugs run under.
pub record Mongo (W M : Type 0) : Type 0 where
  pub model_find : QrCodeListFilter → Asked W (List (QrCodeMongoDto M))
  pub model_find_by_id : Text → Asked W (Option (QrCodeMongoDto M))
  pub model_find_one : Text → Asked W (Option (QrCodeMongoDto M))
  pub model_create : QrFields → Asked W (QrCodeMongoDto M)
  pub model_update : Text → QrCodeUpdate → Asked W (Option (QrCodeMongoDto M))
  pub model_delete : Text → Asked W (Option (QrCodeMongoDto M))
  pub slug_lookup : Asked W (Option (QrCodeMongoDto M)) → Asked W (Option (QrCodeMongoDto M))
  pub generator : W → Text × W
  pub mongo_to_model_base : M → Base
  pub build_mongo_payload : QrFields → QrFields
  pub build_mongo_update_payload : QrCodeUpdate → QrCodeUpdate

-- The world of a call and the slugs drawn, in order.
pub record Session (W : Type 0) : Type 0 where
  pub world : W
  pub drawn : List Text

unfoldable pub is_slug_collision : MongoLikeError → Bool
is_slug_collision e = elim e.code [
  | none ↦ false
  | some code ↦ nat_eqb code 11000 && elim e.key_pattern [
    | none ↦ false
    | some pattern ↦ elim (Dict.get (text "slug") pattern) [ none ↦ false | some truthy ↦ truthy ]
  ]
]

abbrev pub gave_up : Text
gave_up = text "Failed to allocate a unique slug after 5 attempts."

module _ {W M : Type 0} (mongo : Mongo W M) where
  unfoldable pub mongo_to_model : QrCodeMongoDto M → QrCode
  mongo_to_model d = record { base = mongo.mongo_to_model_base d.document; fields = d.fields }

  unfoldable pub build_mongo_create : Entity → Text → QrFields
  build_mongo_create entity slug = mongo.build_mongo_payload (record {
    slug = slug;
    target_url = entity.target_url;
    label = entity.label;
    kind = entity.kind;
    active = entity.active;
  })

  abbrev pub model_of : Option (QrCodeMongoDto M) → Option QrCode
  model_of none = none
  model_of (some d) = some (mongo_to_model d)

  abbrev pub answered :
      Result MongoLikeError (Option (QrCodeMongoDto M)) × W → Result Problem (Option QrCode) × W
  answered (ok d, w) = (ok (model_of d), w)
  answered (err e, w) = (err (storage e), w)

  abbrev pub listed :
      Result MongoLikeError (List (QrCodeMongoDto M)) × W → Result Problem (List QrCode) × W
  listed (ok ds, w) = (ok (map mongo_to_model ds), w)
  listed (err e, w) = (err (storage e), w)

  unfoldable pub list_codes : QrCodeListFilter → W → Result Problem (List QrCode) × W
  list_codes filter w = listed (mongo.model_find filter w)

  unfoldable pub get_by_id : Text → W → Result Problem (Option QrCode) × W
  get_by_id id w = answered (mongo.model_find_by_id id w)

  unfoldable pub get_by_slug : Text → W → Result Problem (Option QrCode) × W
  get_by_slug slug w = answered (mongo.slug_lookup (mongo.model_find_one slug) w)

  unfoldable pub update_code : Text → QrCodeUpdate → W → Result Problem (Option QrCode) × W
  update_code id partial w =
      answered (mongo.model_update id (mongo.build_mongo_update_payload partial) w)

  abbrev pub ended :
      Result MongoLikeError (Option (QrCodeMongoDto M)) × W → Result Problem (Unit {0}) × W
  ended (ok d, w) = (ok tt, w)
  ended (err e, w) = (err (storage e), w)

  unfoldable pub delete_code : Text → W → Result Problem (Unit {0}) × W
  delete_code id w = ended (mongo.model_delete id w)

  -- What follows an insertion: the model, another attempt, or the error.
  unfoldable pub after_insert :
      (Session W → Result Problem QrCode × Session W)
      → List Text
      → Result MongoLikeError (QrCodeMongoDto M) × W
      → Result Problem QrCode × Session W
  after_insert again drawn (ok d, w) = (ok (mongo_to_model d), record { world = w; drawn = drawn })
  after_insert again drawn (err e, w) =
      let s : Session W = record { world = w; drawn = drawn } in
      if is_slug_collision e then again s else (err (storage e), s)

  -- The loop of `create`, with the attempts that are left.
  unfoldable pub create_from : Entity → ℕ → Session W → Result Problem QrCode × Session W
  create_from entity zero s = (err (conflict gave_up), s)
  create_from entity (suc attempts) s =
      let (slug, w) = mongo.generator s.world in
      after_insert (create_from entity attempts) (s.drawn ++ slug ∷ [])
        (mongo.model_create (build_mongo_create entity slug) w)

  unfoldable pub create_code : Entity → Session W → Result Problem QrCode × Session W
  create_code entity s = create_from entity 5 s
