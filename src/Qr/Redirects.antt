-- ===== src/Qr/Redirects.antt =====
-- Where a scanned code leads.
use iot_miniservers.Prelude.{
  ◌≡◌, ◌⊎◌, inl, inr, refl, sym, ap, ◌∙◌, Bool, true, false, Option, none, some, List, [], ◌∷◌,
  ◌++◌, Text, arith, any, find, text_eq, if◌then◌else◌, Bool-cases,
}
use iot_miniservers.Prelude.Dict.{eq_self}
use iot_miniservers.Prelude.Result.{Result, ok, err}
use iot_miniservers.Qr.{
  Entity, QrCode, QrCodeMongoDto, MongoLikeError, Problem, storage, Mongo, Session, Asked,
  mongo_to_model, answered, create_code, get_by_slug,
}
use iot_miniservers.Qr.Handlers.{
  QrCodeCreateRequest, QrCodeResponse, then_map, missing, required, redirect, redirect_target,
  create_handler, to_response,
}
use iot_miniservers.Qr.Allocation.{IsUnique, has_slug, Allocated, create_code-Allocated}

-- What lookups rely on: an answer is the first row with the slug, and what the policy lets through is
-- an answer of the lookup over the same rows.
pub record IsConsistent {W M : Type 0} (mongo : Mongo W M) (rows : W → List (QrCodeMongoDto M))
    : Type 0 where
  pub found :
      (slug : Text) (w : W) (r : Option (QrCodeMongoDto M))
      → (mongo.model_find_one slug w).0 ≡ ok r
      → r ≡ find (has_slug slug) (rows w)
  pub guarded :
      (ask : Asked W (Option (QrCodeMongoDto M))) (w : W) (r : Option (QrCodeMongoDto M))
      → (mongo.slug_lookup ask w).0 ≡ ok r
      → (v : W) × (rows v ≡ rows w) × ((ask v).0 ≡ ok r)

-- The answer expected, or an error of the database.
abbrev pub Leads : Result Problem Text → Result Problem Text → Type 0
Leads expected r = (r ≡ expected) ⊎ ((e : MongoLikeError) × (r ≡ err (storage e)))

find-last :
    {A : Type 0} (p : A → Bool) (xs : List A) (a : A)
    → any p xs ≡ false
    → p a ≡ true
    → find p (xs ++ a ∷ []) ≡ some a
find-last p [] a h k = ground (arith, k)
find-last p (x ∷ xs) a h k = ground (arith, h, find-last p xs a)

module _ {W M : Type 0} (mongo : Mongo W M) where
  -- What a lookup that gave `row` makes of a scan.
  abbrev pub landing : Text → Option (QrCodeMongoDto M) → Result Problem Text
  landing slug none = err (missing slug)
  landing slug (some d) = if d.fields.active then ok d.fields.target_url else err (missing slug)

  landing-required :
      (slug : Text) (r : Option (QrCodeMongoDto M)) (v : W)
      → (required slug (redirect_target mongo slug) (answered mongo (ok r, v))).0 ≡ landing slug r
  unfolding redirect_target mongo_to_model
  landing-required slug none v = refl
  landing-required slug (some d) v = elim (Bool-cases d.fields.active) [
    | inl on ↦ rw on refl
    | inr off ↦ rw off refl
  ]

  module _ (rows : W → List (QrCodeMongoDto M)) (consistent : IsConsistent mongo rows) where
    landed :
        (slug : Text) (w : W) (a : Result MongoLikeError (Option (QrCodeMongoDto M)) × W)
        → mongo.slug_lookup (mongo.model_find_one slug) w ≡ a
        → Leads (landing slug (find (has_slug slug) (rows w))) (redirect mongo slug w).0
    unfolding redirect get_by_slug
    landed slug w (err e, v) h = inr (e, rw h refl)
    landed slug w (ok r, v) h =
        let (u, same, asked) =
          consistent.guarded (mongo.model_find_one slug) w r (ap (λ x. x.0) h) in
        let row : find (has_slug slug) (rows w) ≡ r =
          ap (find (has_slug slug)) (sym same) ∙ sym (consistent.found slug u r asked) in
        inl (rw (h, row) (landing-required slug r v))

    -- A scan answers what the first row with the slug says: its target while it is active, not
    -- found when it is not or there is none. It may fail only with an error of the database.
    pub redirect-landing :
        (slug : Text) (w : W)
        → Leads (landing slug (find (has_slug slug) (rows w))) (redirect mongo slug w).0
    redirect-landing slug w = landed slug w _ refl

    module _ (unique : IsUnique mongo rows) (base_url : Text) where
      created :
          (entity : Entity) (code : QrCode) (s : Session W)
          (run : Result Problem QrCode × Session W)
          → Allocated mongo rows entity 5 s run
          → run.0 ≡ ok code
          → entity.active ≡ true
          → landing code.fields.slug (find (has_slug code.fields.slug) (rows run.1.world))
            ≡ ok entity.target_url
      unfolding mongo_to_model
      created entity code s run (inl (d, slugs, r, f, free, after, drawn, all, few)) h on =
          let same : mongo_to_model mongo d ≡ code = ground (arith, r, h) in
          let slug : code.fields.slug ≡ d.fields.slug = ap (λ c. c.fields.slug) (sym same) in
          rw
            (
              slug,
              after,
              find-last (has_slug d.fields.slug) (rows s.world) d free (eq_self d.fields.slug),
            )
            (let active : d.fields.active ≡ true = ap (λ x. x.active) f ∙ on in
              let target : d.fields.target_url ≡ entity.target_url = ap (λ x. x.target_url) f in
              rw active (ap ok target))
      created entity code s run (inr (inl (slugs, r, after, drawn, all, five))) h on =
          ground (arith, r, h)
      created entity code s run (inr (inr (e, slugs, last, r, other, drawn, all, few))) h on =
          ground (arith, r, h)

      answered_code :
          (response : QrCodeResponse) (run : Result Problem QrCode × Session W)
          → (then_map (to_response base_url) run).0 ≡ ok response
          → (run.0 ≡ ok response.code) × ((then_map (to_response base_url) run).1 ≡ run.1)
      unfolding to_response
      answered_code response (ok code, t) h = (ground (arith, h), refl)
      answered_code response (err e, t) h = ground (arith, h)

      -- The code that a request has created leads, when it is scanned while the rows are as they were
      -- left, to the target of the request. Only the database can stand in the way.
      pub create_handler-redirect :
          (request : QrCodeCreateRequest) (response : QrCodeResponse) (s : Session W)
          → (create_handler mongo base_url request s).0 ≡ ok response
          → (w : W) → rows w ≡ rows (create_handler mongo base_url request s).1.world
          → Leads (ok request.target_url) (redirect mongo response.code.fields.slug w).0
      unfolding create_handler
      create_handler-redirect request response s h w same =
          let entity : Entity = record {
            target_url = request.target_url;
            label = request.label;
            kind = request.kind;
            active = true;
          } in
          let run = create_code mongo entity s in
          let (answer, left) = answered_code response run h in
          let target =
            created entity response.code s run (create_code-Allocated mongo rows entity unique s)
              answer refl in
          let rows_w : rows w ≡ rows run.1.world = same ∙ ap (λ t. rows t.world) left in
          let slug = response.code.fields.slug in
          let lands : landing slug (find (has_slug slug) (rows w)) ≡ ok request.target_url =
            ap (λ rs. landing slug (find (has_slug slug) rs)) rows_w ∙ target in
          rw (← lands) (redirect-landing slug w)
