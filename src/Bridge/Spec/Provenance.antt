-- ===== src/Bridge/Spec/Provenance.antt =====
-- Where the properties of a simplified specification come from.
use iot_miniservers.Prelude.{
  ◌≡◌, ◌⊎◌, ◌↔◌, inl, inr, refl, sym, ap, ◌∙◌, Option, none, some, Option-cases, List, [], ◌∷◌,
  ◌++◌, map, Text, arith, if◌then◌else◌, ◌==◌, text_eq, Bool-cases,
}
use iot_miniservers.Prelude.Dict
use iot_miniservers.Prelude.Dict.{Dict, get-insert}
use iot_miniservers.Prelude.Result.{Result, ok}
use iot_miniservers.Bridge.Commands.{
  MiotProperty, MiotAction, SimplifiedMiotSpec, PropertySource, from_spec, from_override,
}
use iot_miniservers.Bridge.Spec.{
  MiotSpecV2, MiotSpecV2Service, MiotSpecV2ServiceProperty, ModelPropertyOverride, Mapping, set_all,
  flat_map, override_entry, entry_on, property_entry, service_entries, errors_of, simplified,
  map_spec, merged, find_service, properties_of, action_results,
}

module _ {A : Type 0} where
  abbrev pub later : Option A → Option A → Option A
  later (some a) o = some a
  later none o = o

  -- The value of the last entry for a key.
  abbrev pub last_of : Text → Dict Text A → Option A
  last_of key [] = none
  last_of key ((k, v) ∷ entries) = later (last_of key entries) (if k == key then some v else none)

  -- An entry stands in a list of entries.
  abbrev pub Listed : Text → A → Dict Text A → Type 0
  Listed key a [] = ⊥
  Listed key a ((k, v) ∷ entries) = ((k ≡ key) × (v ≡ a)) ⊎ Listed key a entries

  later_assoc : (a b c : Option A) → later (later a b) c ≡ later a (later b c)
  later_assoc none b c = refl
  later_assoc (some a) b c = refl

  get-set_all :
      (key : Text) (entries target : Dict Text A)
      → Dict.get key (set_all entries target) ≡ later (last_of key entries) (Dict.get key target)
  unfolding set_all
  get-set_all key [] target = refl
  get-set_all key ((k, v) ∷ entries) target =
      get-set_all key entries (Dict.insert k v target)
      ∙ (ap (later (last_of key entries)) (
            get-insert k key v target
            ∙ elim (Bool-cases (k == key)) [ inl same ↦ rw same refl | inr other ↦ rw other refl ])
          ∙ sym (later_assoc (last_of key entries) _ (Dict.get key target)))

  last_of-Listed :
      (key : Text) (entries : Dict Text A) (a : A)
      → last_of key entries ≡ some a
      → Listed key a entries
  last_of-Listed key [] a h = ground arith
  last_of-Listed key ((k, v) ∷ entries) a h = elim (Option-cases (last_of key entries)) [
    | inl none_later ↦ ground (arith, h, none_later, text_eq.beq_iff k key)
    | inr (b, found) ↦ inr (last_of-Listed key entries a (ground (arith, h, found)))
  ]

  last_of-none :
      (key : Text) (entries : Dict Text A) (a : A)
      → last_of key entries ≡ none
      → ¬ Listed key a entries
  last_of-none key [] a h x = elim x [ ]
  last_of-none key ((k, v) ∷ entries) a h (inl (same, v_is_a)) =
      ground (arith, h, same, text_eq.beq_iff k key)
  last_of-none key ((k, v) ∷ entries) a h (inr l) = last_of-none key entries a (ground (arith, h)) l

module _ {V : Type 0} where
  -- Every property of the entries is from `source`.
  abbrev AllFrom : PropertySource → Dict Text (MiotProperty V) → Type 0
  AllFrom source entries =
      (key : Text) (p : MiotProperty V) → Listed key p entries → p.source ≡ source

  append-AllFrom :
      (source : PropertySource) (xs ys : Dict Text (MiotProperty V))
      → AllFrom source xs
      → AllFrom source ys
      → AllFrom source (xs ++ ys)
  append-AllFrom source [] ys h k key p l = k key p l
  append-AllFrom source (x ∷ xs) ys h k key p (inl e) = h key p (inl e)
  append-AllFrom source (x ∷ xs) ys h k key p (inr l) =
      append-AllFrom source xs ys (λ key p l. h key p (inr l)) k key p l

  flat_map-AllFrom :
      {A : Type 0} (source : PropertySource) (f : A → Dict Text (MiotProperty V)) (xs : List A)
      → ((x : A) → AllFrom source (f x))
      → AllFrom source (flat_map f xs)
  flat_map-AllFrom source f [] h key p l = elim l [ ]
  flat_map-AllFrom source f (x ∷ xs) h key p l =
      append-AllFrom source (f x) (flat_map f xs) (h x) (flat_map-AllFrom source f xs h) key p l

  override_entry-AllFrom :
      (spec : MiotSpecV2 V) (override : ModelPropertyOverride V)
      → AllFrom from_override (override_entry spec override)
  unfolding override_entry
  override_entry-AllFrom spec override key p l = found (find_service override.siid spec.services) l
    where
      found :
          (s : Option (MiotSpecV2Service V))
          → Listed key p (entry_on override s)
          → p.source ≡ from_override
      found none l = elim l [ ]
      found (some svc) (inl (e, f)) = ap (λ q. q.source) (sym f)
      found (some svc) (inr l) = elim l [ ]

  module _ (lib : Mapping V) where
    service_entries-AllFrom :
        (svc : MiotSpecV2Service V) → AllFrom from_spec (service_entries lib svc)
    unfolding service_entries property_entry
    service_entries-AllFrom svc = mapped (properties_of svc)
      where
        mapped :
            (ps : List (MiotSpecV2ServiceProperty V))
            → AllFrom from_spec (map (property_entry lib svc) ps)
        mapped [] key p l = elim l [ ]
        mapped (q ∷ ps) key p (inl (e, f)) = ap (λ q. q.source) (sym f)
        mapped (q ∷ ps) key p (inr l) = mapped ps key p l

    abbrev pub published : MiotSpecV2 V → Dict Text (MiotProperty V)
    published spec = flat_map (service_entries lib) spec.services

    abbrev pub overriding :
        MiotSpecV2 V → List (ModelPropertyOverride V) → Dict Text (MiotProperty V)
    overriding spec overrides = flat_map (override_entry spec) overrides

    -- What a key may hold: the last override for it; without one, a published property for it; and
    -- nothing only where there is neither. Its source says which.
    abbrev pub Origin :
        MiotSpecV2 V → List (ModelPropertyOverride V) → Text → Option (MiotProperty V) → Type 0
    Origin spec overrides key held =
        ((p : MiotProperty V) × (last_of key (overriding spec overrides) ≡ some p)
          × (held ≡ some p)
          × (p.source ≡ from_override))
        ⊎ ((last_of key (overriding spec overrides) ≡ none)
            × (((p : MiotProperty V) × Listed key p (published spec)
                  × (held ≡ some p)
                  × (p.source ≡ from_spec))
                ⊎ (((p : MiotProperty V) → ¬ Listed key p (published spec)) × (held ≡ none))))

    merged-Origin :
        ((key : Text) (p : MiotProperty V) (entries : Dict Text (MiotProperty V))
          → Listed key p (lib.property_order entries) ↔ Listed key p entries)
        → (spec : MiotSpecV2 V) (overrides : List (ModelPropertyOverride V)) (key : Text)
        → Origin spec overrides key (Dict.get key (merged lib spec overrides))
    unfolding Dict.get
    merged-Origin ordered spec overrides key =
        let ours = overriding spec overrides in
        let theirs = lib.property_order (published spec) in
        let held = get-set_all key ours (set_all theirs []) in
        let below = get-set_all key theirs [] in
        elim (Option-cases (last_of key ours)) [
          | inr (p, mine) ↦ inl (
            p,
            mine,
            held ∙ ap (λ o. later o (Dict.get key (set_all theirs []))) mine,
            flat_map-AllFrom from_override (override_entry spec) overrides
                (override_entry-AllFrom spec) key p (last_of-Listed key ours p mine),
          )
          | inl nothing ↦
              let rest : Dict.get key (merged lib spec overrides)
                  ≡ later (last_of key theirs) none =
                held ∙ (ap (λ o. later o (Dict.get key (set_all theirs []))) nothing ∙ below) in
              elim (Option-cases (last_of key theirs)) [
                | inr (p, found) ↦
                    let listed =
                      (ordered key p (published spec)).0 (last_of-Listed key theirs p found) in
                    inr (
                      nothing,
                      inl (
                        p,
                        listed,
                        rest ∙ ap (λ o. later o none) found,
                        flat_map-AllFrom from_spec (service_entries lib) spec.services
                            service_entries-AllFrom key p listed,
                      ),
                    )
                | inl none_there ↦ inr (
                  nothing,
                  inr (
                    λ p l.
                        last_of-none key theirs p none_there ((ordered key p (published spec)).1 l),
                    rest ∙ ap (λ o. later o none) none_there,
                  ),
                )
              ]
        ]

    -- What `simplified` answers with are the merged properties.
    simplified-merged :
        (spec : MiotSpecV2 V) (overrides : List (ModelPropertyOverride V))
        (results : List (Result Text (Text × MiotAction))) (errors : List Text)
        (s : SimplifiedMiotSpec V)
        → simplified lib spec overrides results errors ≡ ok s
        → merged lib spec overrides ≡ s.properties
    simplified-merged spec overrides results [] s h = ground (arith, h)
    simplified-merged spec overrides results (e ∷ errors) s h = ground (arith, h)

    -- When the order in which published entries are set neither adds nor drops one, every key of a mapped
    -- specification holds the last override for it of a service that is there, which counts as an override;
    -- without one a published property of that key, which counts as published; and nothing only
    -- where there is neither.
    pub map_spec-Origin :
        ((key : Text) (p : MiotProperty V) (entries : Dict Text (MiotProperty V))
          → Listed key p (lib.property_order entries) ↔ Listed key p entries)
        → (spec : MiotSpecV2 V) (overrides : List (ModelPropertyOverride V))
          (s : SimplifiedMiotSpec V)
        → map_spec lib spec overrides ≡ ok s
        → (key : Text) → Origin spec overrides key (Dict.get key s.properties)
    unfolding map_spec
    map_spec-Origin ordered spec overrides s h key =
        let results = flat_map (action_results lib) spec.services in
        rw (← simplified-merged spec overrides results (errors_of lib results) s h)
          (merged-Origin ordered spec overrides key)
