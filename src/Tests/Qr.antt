-- ===== src/Tests/Qr.antt =====
-- apis/qr-manager-api at concrete inputs: the world is the rows of the collection and the slugs to come.
use iot_miniservers.Prelude.{
  ◌≡◌, refl, sym, ap, inl, inr, true, false, none, some, List, [], ◌∷◌, ◌++◌, Text, text, arith,
  find, if◌then◌else◌, Bool-cases,
}
use iot_miniservers.Prelude.Dict
use iot_miniservers.Prelude.Result.{Result, ok, err}
use iot_miniservers.Qr.{
  plant, Entity, QrFields, QrCodeMongoDto, MongoLikeError, Mongo, Session, create_code,
  is_slug_collision, create_from, after_insert, build_mongo_create, mongo_to_model,
}
use iot_miniservers.Qr.Handlers.{
  QrCodeCreateRequest, QrCodeResponse, create_handler, redirect, to_response, compose_qr_url,
}
use iot_miniservers.Qr.Allocation.{IsUnique, Allocated, taken, has_slug, create_code-Allocated}
use iot_miniservers.Qr.Redirects.{
  IsConsistent, Leads, landing, redirect-landing, create_handler-redirect,
}

abbrev Row : Type 0
Row = QrCodeMongoDto (Unit {0})

abbrev World : Type 0
World = List Row × List Text

abbrev rows_of : World → List Row
rows_of (rows, coming) = rows

abbrev draw : World → Text × World
draw (rows, []) = ([], (rows, []))
draw (rows, slug ∷ coming) = (slug, (rows, coming))

abbrev duplicate : MongoLikeError
duplicate = record { code = some 11000; key_pattern = some ((text "slug", true) ∷ []) }

abbrev insert_row : QrFields → World → Result MongoLikeError Row × World
insert_row f (rows, coming) = if taken rows f.slug then (err duplicate, (rows, coming)) else (
  ok (record { document = tt; fields = f }),
  (rows ++ record { document = tt; fields = f } ∷ [], coming),
)

abbrev mongo : Mongo World (Unit {0})
mongo = record {
  model_find = λ filter w. (ok (rows_of w), w);
  model_find_by_id = λ id w. (ok none, w);
  model_find_one = λ slug w. (ok (find (has_slug slug) (rows_of w)), w);
  model_create = insert_row;
  model_update = λ id partial w. (ok none, w);
  model_delete = λ id w. (ok none, w);
  slug_lookup = λ ask. ask;
  generator = draw;
  mongo_to_model_base = λ m. record { id = text "1"; created_at = 0; updated_at = 0 };
  build_mongo_payload = λ f. f;
  build_mongo_update_payload = λ p. p;
}

drawing : (w : World) → rows_of (draw w).1 ≡ rows_of w
drawing (rows, []) = refl
drawing (rows, slug ∷ coming) = refl

inserting :
    (f : QrFields) (w : World) (d : Row)
    → (insert_row f w).0 ≡ ok d
    → (d.fields ≡ f)
      × (taken (rows_of w) f.slug ≡ false)
      × (rows_of (insert_row f w).1 ≡ rows_of w ++ d ∷ [])
inserting f (rows, coming) d h = elim (Bool-cases (taken rows f.slug)) [
  | inl used ↦ ground (arith, h, used)
  | inr free ↦
      let same : record { document = tt; fields = f } ≡ d = ground (arith, h, free) in
      rw free (ap (λ x. x.fields) (sym same), refl, ap (λ x. rows ++ x ∷ []) same)
]

refusing :
    (f : QrFields) (w : World) (e : MongoLikeError)
    → (insert_row f w).0 ≡ err e
    → is_slug_collision e ≡ true
    → (taken (rows_of w) f.slug ≡ true) × (rows_of (insert_row f w).1 ≡ rows_of w)
refusing f (rows, coming) e h collision = elim (Bool-cases (taken rows f.slug)) [
  | inl used ↦ rw used (refl, refl)
  | inr free ↦ ground (arith, h, free)
]

mongo-IsUnique : IsUnique mongo rows_of
mongo-IsUnique = record {
  generator_rows = drawing;
  payload = λ f. refl;
  inserted = inserting;
  refused = refusing;
}

mongo-IsConsistent : IsConsistent mongo rows_of
mongo-IsConsistent = record {
  found = λ slug w r h. ground (arith, h);
  guarded = λ ask w r h. (w, refl, h);
}

abbrev shelf : Row
shelf = record {
  document = tt;
  fields = record {
    slug = text "x7k2";
    target_url = text "http://shelf";
    label = text "Shelf";
    kind = plant;
    active = false;
  };
}

abbrev entity : Entity
entity = record { target_url = text "http://pot"; label = text "Pot"; kind = plant; active = true }

-- The first slug drawn is taken.
abbrev session : Session World
session = record { world = (shelf ∷ [], text "x7k2" ∷ text "ab12" ∷ []); drawn = [] }

create_code-Allocated_example :
    Allocated mongo rows_of entity 5 session (create_code mongo entity session)
create_code-Allocated_example = create_code-Allocated mongo rows_of entity mongo-IsUnique session

redirect-landing_example :
    Leads
      (landing mongo (text "x7k2") (find (has_slug (text "x7k2")) (shelf ∷ [])))
      (redirect mongo (text "x7k2") session.world).0
redirect-landing_example =
    redirect-landing mongo rows_of mongo-IsConsistent (text "x7k2") session.world

abbrev request : QrCodeCreateRequest
request = record { target_url = text "http://pot"; label = text "Pot"; kind = plant }

abbrev base_url : Text
base_url = text "http://qr.home//"

abbrev response : QrCodeResponse
response = record {
  code = record {
    base = record { id = text "1"; created_at = 0; updated_at = 0 };
    fields = record {
      slug = text "ab12";
      target_url = text "http://pot";
      label = text "Pot";
      kind = plant;
      active = true;
    };
  };
  qr_url = text "http://qr.home/ab12";
}

second_slug : (create_handler mongo base_url request session).0 ≡ ok response
unfolding create_handler create_code create_from after_insert build_mongo_create mongo_to_model
    is_slug_collision to_response compose_qr_url Dict.get
second_slug = refl

create_handler-redirect_example :
    Leads
      (ok (text "http://pot"))
      (redirect mongo (text "ab12") (create_handler mongo base_url request session).1.world).0
create_handler-redirect_example =
    create_handler-redirect mongo rows_of mongo-IsConsistent mongo-IsUnique base_url request
      response session second_slug (create_handler mongo base_url request session).1.world refl
