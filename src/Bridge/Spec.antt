-- ===== src/Bridge/Spec.antt =====
-- apis/miot-bridge-api/src/mappers/SimplifiedMiotSpecV2Mapper.ts. `mapArray` and `mapEnum` of
-- @radoslavirha/utils are parameters: `mapArray` awaits its function for every item, and the order in which the
-- items get to insert into the maps, and which of several errors is thrown, is its own.
pub mod Provenance
pub mod Sources
use iot_miniservers.Prelude.{
  ℕ, Bool, true, false, Option, none, some, List, [], ◌∷◌, ◌++◌, map, Text, text, find, nat_eqb,
  or_else, if◌then◌else◌, text_eq,
}
use iot_miniservers.Prelude.Dict
use iot_miniservers.Prelude.Dict.{Dict}
use iot_miniservers.Prelude.Result.{Result, ok, err, ◌>>=◌}
use iot_miniservers.Bridge.Commands.{
  PropertyAccess, PropertyValue, MiotProperty, MiotAction, SimplifiedMiotSpec, from_spec,
  from_override,
}

pub data MiotSpecV2PropertyAccess : Type 0 where
  spec_read spec_write spec_notify : MiotSpecV2PropertyAccess

-- The fields of the published specification that the mapper reads. `type_urn` is the field `type`.
pub record MiotSpecV2ServiceProperty (V : Type 0) : Type 0 where
  pub iid : ℕ
  pub type_urn : Text
  pub access : List MiotSpecV2PropertyAccess
  pub value_list : Option (List (PropertyValue V))

pub record MiotSpecV2ServiceAction : Type 0 where
  pub iid : ℕ
  pub type_urn : Text
  pub input : List ℕ

pub record MiotSpecV2Service (V : Type 0) : Type 0 where
  pub iid : ℕ
  pub type_urn : Text
  pub properties : Option (List (MiotSpecV2ServiceProperty V))
  pub actions : Option (List MiotSpecV2ServiceAction)

pub record MiotSpecV2 (V : Type 0) : Type 0 where
  pub type_urn : Text
  pub description : Text
  pub services : List (MiotSpecV2Service V)

pub record ModelPropertyOverride (V : Type 0) : Type 0 where
  pub key : Text
  pub siid : ℕ
  pub piid : ℕ
  pub access : List PropertyAccess
  pub values : List (PropertyValue V)

pub record Mapping (V : Type 0) : Type 0 where
  pub map_enum : MiotSpecV2PropertyAccess → PropertyAccess
  pub property_order : Dict Text (MiotProperty V) → Dict Text (MiotProperty V)
  pub action_order : Dict Text MiotAction → Dict Text MiotAction
  pub rejection : Text → List Text → Text
  pub show : ℕ → Text

-- What stands before the separator `:`, and the parts behind it.
unfoldable pub split : Text → Text × List Text
split [] = ([], [])
split (c ∷ cs) =
    let (part, parts) = split cs in if nat_eqb c 58 then ([], part ∷ parts) else (c ∷ part, parts)

-- `urn.split(':')[3]`, where it is put into a template.
unfoldable pub name_of : Text → Text
name_of urn = elim (split urn).1 [ a ∷ b ∷ name ∷ parts ↦ name | _ ↦ text "undefined" ]

abbrev pub key_of : Text → Text → Text
key_of service_key name = service_key ++ (text ":" ++ name)

-- A map after the entries have been set in order.
unfoldable pub set_all : {A : Type 0} → Dict Text A → Dict Text A → Dict Text A
set_all [] target = target
set_all ((k, v) ∷ entries) target = set_all entries (Dict.insert k v target)

module _ {A B : Type 0} where
  abbrev pub flat_map : (A → List B) → List A → List B
  flat_map f [] = []
  flat_map f (x ∷ xs) = f x ++ flat_map f xs

module _ {V : Type 0} where
  abbrev pub properties_of : MiotSpecV2Service V → List (MiotSpecV2ServiceProperty V)
  properties_of svc = or_else svc.properties []

  unfoldable pub find_service : ℕ → List (MiotSpecV2Service V) → Option (MiotSpecV2Service V)
  find_service siid services = find (λ s. nat_eqb s.iid siid) services

  abbrev pub entry_on :
      ModelPropertyOverride V → Option (MiotSpecV2Service V) → Dict Text (MiotProperty V)
  entry_on override none = []
  entry_on override (some svc) =
      (
        key_of (name_of svc.type_urn) override.key,
        record {
          siid = override.siid;
          piid = override.piid;
          access = override.access;
          values = override.values;
          source = from_override;
        },
      )
      ∷ []

  unfoldable pub override_entry :
      MiotSpecV2 V → ModelPropertyOverride V → Dict Text (MiotProperty V)
  override_entry spec override = entry_on override (find_service override.siid spec.services)

  module _ (lib : Mapping V) where
    unfoldable pub property_entry :
        MiotSpecV2Service V → MiotSpecV2ServiceProperty V → Text × MiotProperty V
    property_entry svc p = (
      key_of (name_of svc.type_urn) (name_of p.type_urn),
      record {
        siid = svc.iid;
        piid = p.iid;
        access = map lib.map_enum p.access;
        values = or_else p.value_list [];
        source = from_spec;
      },
    )

    unfoldable pub service_entries : MiotSpecV2Service V → Dict Text (MiotProperty V)
    service_entries svc = map (property_entry svc) (properties_of svc)

    unfoldable pub input_key : MiotSpecV2Service V → MiotSpecV2ServiceAction → ℕ → Result Text Text
    input_key svc a piid = elim (find (λ p. nat_eqb p.iid piid) (properties_of svc)) [
      | none ↦ err (
          text "Action '"
          ++ (a.type_urn
              ++ (text "' references non-existent input property with PIID "
                  ++ (lib.show piid ++ (text " in service '" ++ (svc.type_urn ++ text "'."))))))
      | some p ↦ ok (key_of (name_of svc.type_urn) (name_of p.type_urn))
    ]

    unfoldable pub input_keys :
        MiotSpecV2Service V → MiotSpecV2ServiceAction → List ℕ → Result Text (List Text)
    unfolding input_key
    input_keys svc a [] = ok []
    input_keys svc a (piid ∷ piids) =
        input_key svc a piid >>= λ key. input_keys svc a piids >>= λ keys. ok (key ∷ keys)

    unfoldable pub action_entry :
        MiotSpecV2Service V → MiotSpecV2ServiceAction → Result Text (Text × MiotAction)
    action_entry svc a = input_keys svc a a.input >>= λ keys. ok (
      key_of (name_of svc.type_urn) (name_of a.type_urn),
      record { siid = svc.iid; aiid = a.iid; input = some keys },
    )

    unfoldable pub action_results : MiotSpecV2Service V → List (Result Text (Text × MiotAction))
    action_results svc = map (action_entry svc) (or_else svc.actions [])

    abbrev pub errors_of : List (Result Text (Text × MiotAction)) → List Text
    errors_of [] = []
    errors_of (ok a ∷ results) = errors_of results
    errors_of (err e ∷ results) = e ∷ errors_of results

    abbrev pub entries_of : List (Result Text (Text × MiotAction)) → Dict Text MiotAction
    entries_of [] = []
    entries_of (ok a ∷ results) = a ∷ entries_of results
    entries_of (err e ∷ results) = entries_of results

    abbrev pub merged : MiotSpecV2 V → List (ModelPropertyOverride V) → Dict Text (MiotProperty V)
    merged spec overrides =
        set_all (flat_map (override_entry spec) overrides)
          (set_all (lib.property_order (flat_map service_entries spec.services)) [])

    abbrev pub simplified :
        MiotSpecV2 V
        → List (ModelPropertyOverride V)
        → List (Result Text (Text × MiotAction))
        → List Text
        → Result Text (SimplifiedMiotSpec V)
    simplified spec overrides results (e ∷ errors) = err (lib.rejection e errors)
    simplified spec overrides results [] = ok (record {
      name = spec.description;
      type_urn = spec.type_urn;
      properties = merged spec overrides;
      actions = set_all (lib.action_order (entries_of results)) [];
    })

    -- `map`
    unfoldable pub map_spec :
        MiotSpecV2 V → List (ModelPropertyOverride V) → Result Text (SimplifiedMiotSpec V)
    unfolding action_results
    map_spec spec overrides =
        let results = flat_map action_results spec.services in
        simplified spec overrides results (errors_of results)
