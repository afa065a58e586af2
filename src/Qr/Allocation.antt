-- ===== src/Qr/Allocation.antt =====
-- How a code gets its slug, in a collection whose index on slugs is unique.
use iot_miniservers.Prelude.{
  ℕ, zero, suc, ◌<◌, ◌≡◌, ◌⊎◌, inl, inr, refl, sym, ap, ◌∙◌, Bool, true, false, List, [], ◌∷◌, ◌++◌,
  append_assoc, append-nil, Text, arith, length, any, every, ◌==◌, text_eq, Bool-cases,
}
use iot_miniservers.Prelude.Result.{Result, ok, err}
use iot_miniservers.Qr.{
  Entity, QrFields, QrCode, QrCodeMongoDto, MongoLikeError, Problem, conflict, storage, Mongo,
  Session, is_slug_collision, gave_up, mongo_to_model, build_mongo_create, after_insert,
  create_from, create_code,
}

abbrev pub has_slug : {M : Type 0} → Text → QrCodeMongoDto M → Bool
has_slug slug d = d.fields.slug == slug

abbrev pub taken : {M : Type 0} → List (QrCodeMongoDto M) → Text → Bool
taken rows slug = any (has_slug slug) rows

-- What the code relies on: drawing a slug touches no row; a document is inserted with the fields given
-- and only under a slug that no row has; an insertion is refused for its slug only where a row has
-- it, and then changes nothing; and the payload holds what it was built from.
pub record IsUnique {W M : Type 0} (mongo : Mongo W M) (rows : W → List (QrCodeMongoDto M))
    : Type 0 where
  pub generator_rows : (w : W) → rows (mongo.generator w).1 ≡ rows w
  pub payload : (f : QrFields) → mongo.build_mongo_payload f ≡ f
  pub inserted :
      (f : QrFields) (w : W) (d : QrCodeMongoDto M)
      → (mongo.model_create f w).0 ≡ ok d
      → (d.fields ≡ f)
        × (taken (rows w) f.slug ≡ false)
        × (rows (mongo.model_create f w).1 ≡ rows w ++ d ∷ [])
  pub refused :
      (f : QrFields) (w : W) (e : MongoLikeError)
      → (mongo.model_create f w).0 ≡ err e
      → is_slug_collision e ≡ true
      → (taken (rows w) f.slug ≡ true) × (rows (mongo.model_create f w).1 ≡ rows w)

abbrev pub fields_of : Entity → Text → QrFields
fields_of entity slug = record {
  slug = slug;
  target_url = entity.target_url;
  label = entity.label;
  kind = entity.kind;
  active = entity.active;
}

module _ {W M : Type 0} (mongo : Mongo W M) (rows : W → List (QrCodeMongoDto M))
    (entity : Entity) where
  abbrev pub Run : Type 0
  Run = Result Problem QrCode × Session W

  -- A new row under a slug that was free, drawn after fewer than `n` slugs that were not.
  abbrev pub Created : ℕ → Session W → Run → Type 0
  Created n s (r, t) =
      (d : QrCodeMongoDto M) × (slugs : List Text) × (r ≡ ok (mongo_to_model mongo d))
      × (d.fields ≡ fields_of entity d.fields.slug)
      × (taken (rows s.world) d.fields.slug ≡ false)
      × (rows t.world ≡ rows s.world ++ d ∷ [])
      × (t.drawn ≡ s.drawn ++ (slugs ++ d.fields.slug ∷ []))
      × (every (taken (rows s.world)) slugs ≡ true)
      × (length slugs < n)

  -- All the `n` slugs drawn were taken, and nothing has changed.
  abbrev pub Refused : ℕ → Session W → Run → Type 0
  Refused n s (r, t) =
      (slugs : List Text) × (r ≡ err (conflict gave_up))
      × (rows t.world ≡ rows s.world)
      × (t.drawn ≡ s.drawn ++ slugs)
      × (every (taken (rows s.world)) slugs ≡ true)
      × (length slugs ≡ n)

  -- The database failed otherwise, at the last of at most `n` slugs.
  abbrev pub Failed : ℕ → Session W → Run → Type 0
  Failed n s (r, t) =
      (e : MongoLikeError) × (slugs : List Text) × (last : Text) × (r ≡ err (storage e))
      × (is_slug_collision e ≡ false)
      × (t.drawn ≡ s.drawn ++ (slugs ++ last ∷ []))
      × (every (taken (rows s.world)) slugs ≡ true)
      × (length slugs < n)

  abbrev pub Allocated : ℕ → Session W → Run → Type 0
  Allocated n s run = Created n s run ⊎ (Refused n s run ⊎ Failed n s run)

  -- A slug that is taken and the rest of the loop.
  Allocated-retry :
      (n : ℕ) (slug : Text) (s t : Session W) (run : Run)
      → t.drawn ≡ s.drawn ++ slug ∷ []
      → rows t.world ≡ rows s.world
      → taken (rows s.world) slug ≡ true
      → Allocated n t run
      → Allocated (suc n) s run
  Allocated-retry n slug s t run e same h (inl (d, slugs, r, f, free, after, drawn, all, l)) = inl (
    d,
    slug ∷ slugs,
    r,
    f,
    rw (← same) free,
    rw (← same) after,
    drawn ∙ (ap (λ x. x ++ (slugs ++ d.fields.slug ∷ [])) e ∙ append_assoc s.drawn (slug ∷ []) _),
    ground (arith, same, h, all),
    omega (arith, l),
  )
  Allocated-retry n slug s t run e same h (inr (inl (slugs, r, after, drawn, all, l))) = inr (
      inl (
        slug ∷ slugs,
        r,
        after ∙ same,
        drawn ∙ (ap (λ x. x ++ slugs) e ∙ append_assoc s.drawn (slug ∷ []) _),
        ground (arith, same, h, all),
        omega (arith, l),
      ))
  Allocated-retry n slug s t run e same h (inr (inr (x, slugs, last, r, other, drawn, all, l))) =
      inr (
        inr (
          x,
          slug ∷ slugs,
          last,
          r,
          other,
          drawn ∙ (ap (λ x. x ++ (slugs ++ last ∷ [])) e ∙ append_assoc s.drawn (slug ∷ []) _),
          ground (arith, same, h, all),
          omega (arith, l),
        ))

  module _ (unique : IsUnique mongo rows) where
    after_insert-Allocated :
        (n : ℕ) (slug : Text) (s : Session W) (w : W) (again : Session W → Run)
        (a : Result MongoLikeError (QrCodeMongoDto M) × W)
        → rows w ≡ rows s.world
        → mongo.model_create (fields_of entity slug) w ≡ a
        → ((t : Session W) → Allocated n t (again t))
        → Allocated (suc n) s (after_insert mongo again (s.drawn ++ slug ∷ []) a)
    unfolding after_insert
    after_insert-Allocated n slug s w again (ok d, v) same e next =
        let (f, free, after) = unique.inserted (fields_of entity slug) w d (ap (λ x. x.0) e) in
        let same_slug : slug ≡ d.fields.slug = sym (ap (λ x. x.slug) f) in
        inl (
          d,
          [],
          refl,
          f ∙ ap (fields_of entity) same_slug,
          ap (taken (rows s.world)) (sym same_slug) ∙ (ap (λ rs. taken rs slug) (sym same) ∙ free),
          ap (λ x. rows x.1) (sym e) ∙ (after ∙ ap (λ rs. rs ++ d ∷ []) same),
          ap (λ x. s.drawn ++ x ∷ []) same_slug,
          refl,
          omega arith,
        )
    after_insert-Allocated n slug s w again (err x, v) same e next =
        elim (Bool-cases (is_slug_collision x)) [
          | inl collision ↦
              let (in_use, after) =
                unique.refused (fields_of entity slug) w x (ap (λ x. x.0) e) collision in
              let t : Session W = record { world = v; drawn = s.drawn ++ slug ∷ [] } in
              rw collision (
                Allocated-retry n slug s t (again t) refl
                  (ap (λ x. rows x.1) (sym e) ∙ (after ∙ same))
                  (ap (λ rs. taken rs slug) (sym same) ∙ in_use) (next t))
          | inr other ↦ rw other (inr (inr (x, [], slug, refl, other, refl, refl, omega arith)))
        ]

    create_from-Allocated : (n : ℕ) (s : Session W) → Allocated n s (create_from mongo entity n s)
    unfolding create_from build_mongo_create
    create_from-Allocated zero s = inr (inl ([], refl, refl, sym (append-nil s.drawn), refl, refl))
    create_from-Allocated (suc n) s =
        rw (unique.payload (fields_of entity (mongo.generator s.world).0)) (
          after_insert-Allocated n (mongo.generator s.world).0 s (mongo.generator s.world).1
            (create_from mongo entity n) _ (unique.generator_rows s.world) refl
            (create_from-Allocated n))

    -- `create` draws at most five slugs. It answers with a new row, the only change, under the first slug drawn that
    -- no row has; it gives up only when five slugs drawn are all taken, and then nothing has changed; any other
    -- error of the database is thrown at once.
    pub create_code-Allocated : (s : Session W) → Allocated 5 s (create_code mongo entity s)
    unfolding create_code
    create_code-Allocated s = create_from-Allocated 5 s
