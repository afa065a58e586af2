-- ===== src/Bridge/Spec/Sources.antt =====
-- DeviceCommandService.ts `execute` over the specification that the mapper makes of the stored one and the
-- overrides for the model of the device.
use iot_miniservers.Prelude.{
  ◌≡◌, ◌⊎◌, ◌↔◌, inl, inr, refl, some, List, [], Text, text_eq, Eq, arith,
}
use iot_miniservers.Prelude.Dict.{Dict}
use iot_miniservers.Prelude.Result.{Result, ok, err, ◌>>=◌}
use iot_miniservers.Bridge.Commands.{
  MiotProperty, SimplifiedMiotSpec, Device, DeviceCommandRequest, ResolvedCommand, getting, setting,
  acting, Services, Executed,
}
use iot_miniservers.Bridge.Commands.Authority.{Authorised}
use iot_miniservers.Bridge.Commands.Execute.{execute, DidOne, execute-Contained}
use iot_miniservers.Bridge.Spec.{MiotSpecV2, ModelPropertyOverride, Mapping, map_spec}
use iot_miniservers.Bridge.Spec.Provenance.{Listed, Origin, map_spec-Origin}

module _ {V : Type 0} (lib : Mapping V) (raw_spec : Device → MiotSpecV2 V)
    (overrides_of : Text → Result Text (List (ModelPropertyOverride V))) where
  unfoldable pub device_spec : Device → Result Text (SimplifiedMiotSpec V)
  device_spec device =
      overrides_of device.model >>= λ overrides. map_spec lib (raw_spec device) overrides

  mapped_from :
      (device : Device) (spec : SimplifiedMiotSpec V)
      (overrides : Result Text (List (ModelPropertyOverride V)))
      → overrides >>= (λ overrides. map_spec lib (raw_spec device) overrides) ≡ ok spec
      → overrides_of device.model ≡ overrides
      → (os : List (ModelPropertyOverride V)) × (overrides_of device.model ≡ ok os)
        × (map_spec lib (raw_spec device) os ≡ ok spec)
  mapped_from device spec (ok os) h same = (os, same, h)
  mapped_from device spec (err m) h same = ground (arith, h)

module _ {V : Type 0} (lib : Mapping V) (raw_spec : Device → MiotSpecV2 V) where
  -- The property that a resolved command is about is the one that the key of the request holds.
  abbrev pub FromOrigin :
      Device → List (ModelPropertyOverride V) → Text → ResolvedCommand V → Type 0
  FromOrigin device overrides command (getting p) =
      Origin lib (raw_spec device) overrides command (some p)
  FromOrigin device overrides command (setting p) =
      Origin lib (raw_spec device) overrides command (some p)
  FromOrigin device overrides command (acting a) = Unit {0}

module _ {V : Type 0} ⦃e : Eq V⦄ (lib : Mapping V) (raw_spec : Device → MiotSpecV2 V) where
  Authorised-FromOrigin :
      ((key : Text) (p : MiotProperty V) (entries : Dict Text (MiotProperty V))
        → Listed key p (lib.property_order entries) ↔ Listed key p entries)
      → (device : Device) (overrides : List (ModelPropertyOverride V)) (spec : SimplifiedMiotSpec V)
      → map_spec lib (raw_spec device) overrides ≡ ok spec
      → (request : DeviceCommandRequest V) (r : ResolvedCommand V) → Authorised request spec r
      → FromOrigin lib raw_spec device overrides request.command r
  Authorised-FromOrigin ordered device overrides spec mapped request (getting p)
        (op, held, access) =
      rw (← held)
        (map_spec-Origin lib ordered (raw_spec device) overrides spec mapped request.command)
  Authorised-FromOrigin ordered device overrides spec mapped request (setting p)
        (op, held, access, allowed) =
      rw (← held)
        (map_spec-Origin lib ordered (raw_spec device) overrides spec mapped request.command)
  Authorised-FromOrigin ordered device overrides spec mapped request (acting a) h = tt

module _ {V W : Type 0} (lib : Mapping V) (raw_spec : Device → MiotSpecV2 V)
    (overrides_of : Text → Result Text (List (ModelPropertyOverride V))) where
  -- The services of a bridge whose specifications come from the mapper.
  abbrev pub mapped_services : Services V W → Services V W
  mapped_services env = record env { spec_of = device_spec lib raw_spec overrides_of }

module _ {V W : Type 0} ⦃e : Eq V⦄ (lib : Mapping V) (raw_spec : Device → MiotSpecV2 V)
    (overrides_of : Text → Result Text (List (ModelPropertyOverride V))) where
  module _ (env : Services V W) where
    -- An execution that left the world alone and told nobody, or did one call for what the key of the
    -- request holds.
    abbrev pub Traced : DeviceCommandRequest V → W → Executed V W → Type 0
    Traced request w x =
        ((x.world ≡ w) × (x.events ≡ []))
        ⊎ ((device : Device) × (overrides : List (ModelPropertyOverride V)) × (r : ResolvedCommand
              V)
            × (env.by_device_id request.device_id ≡ ok (some device))
            × (overrides_of device.model ≡ ok overrides)
            × FromOrigin lib raw_spec device overrides request.command r
            × DidOne (mapped_services lib raw_spec overrides_of env) device request r w x)

    -- A command over a mapped specification that does anything at all does one call of the device asked for. A get or a set
    -- is of the last override for its key, or, without one, of a published property of that key, when
    -- the order in which published entries are set neither adds nor drops one.
    pub execute-Traced :
        ((key : Text) (p : MiotProperty V) (entries : Dict Text (MiotProperty V))
          → Listed key p (lib.property_order entries) ↔ Listed key p entries)
        → (request : DeviceCommandRequest V) (w : W)
        → Traced request w (execute (mapped_services lib raw_spec overrides_of env) request w)
    unfolding device_spec
    execute-Traced ordered request w =
        elim (execute-Contained (mapped_services lib raw_spec overrides_of env) request w) [
          | inl silent ↦ inl silent
          | inr (device, spec, r, found, specified, authorised, done) ↦
              let (overrides, listed, mapped) =
                mapped_from lib raw_spec overrides_of device spec (overrides_of device.model)
                  specified refl in
              inr (
                device,
                overrides,
                r,
                found,
                listed,
                Authorised-FromOrigin lib raw_spec ordered device overrides spec mapped request r
                    authorised,
                done,
              )
        ]
