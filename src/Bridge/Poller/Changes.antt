-- ===== src/Bridge/Poller/Changes.antt =====
-- What is emitted for the readings of a device.
use iot_miniservers.Prelude.{
  ℕ, ◌≡◌, inl, inr, refl, ap, ◌∙◌, Bool, true, false, not, Option, none, some, List, [], ◌∷◌, arith,
  Bool-cases, Text, every, any, filter, if◌then◌else◌, or_else, ◌==◌, text_eq, list_eqb_iff, Eq,
  every-append,
}
use iot_miniservers.Prelude.Int.{pos, int_eq}
use iot_miniservers.Prelude.Dict
use iot_miniservers.Prelude.Dict.{Dict, get-insert, eq_self}
use iot_miniservers.Prelude.Result.{ok}
use iot_miniservers.Bridge.Poller.{
  Reading, PropertyChangeEvent, cache_key, same, publish, publish_all, PollingConfig, Poller,
  read_device,
}

abbrev pub is_accepted : {V : Type 0} → Reading V → Bool
is_accepted r = r.code == pos 0

cache_key-inj : (d p q : Text) → cache_key d p ≡ cache_key d q → p ≡ q
cache_key-inj [] p q h = ground (arith, h)
cache_key-inj (c ∷ d) p q h = cache_key-inj d p q (ground (arith, h))

module _ {V : Type 0} ⦃e : Eq V⦄ where
  same_refl : (a : Option V) → same a a ≡ true
  same_refl none = refl
  same_refl (some a) = eq_self a

  abbrev known : Text → Text → Dict Text (Option V) → Option V
  known d p values = or_else (Dict.get (cache_key d p) values) none

  known-insert :
      (d p q : Text) (v : Option V) (values : Dict Text (Option V))
      → known d q (Dict.insert (cache_key d p) v values) ≡ (if p == q then v else known d q values)
  known-insert d p q v values = ground (
    arith,
    get-insert (cache_key d p) (cache_key d q) v values,
    list_eqb_iff p q,
    list_eqb_iff (cache_key d p) (cache_key d q),
    cache_key-inj d p q,
  )

  abbrev pub is_change : PropertyChangeEvent V → Bool
  is_change event = not (same event.old_value event.new_value)

  abbrev pub AreDistinct : List (Reading V) → Type 0
  AreDistinct [] = Unit {0}
  AreDistinct (r ∷ rs) = (any (λ x. x.key == r.key) rs ≡ false) × AreDistinct rs

  -- Every accepted reading is what is remembered of its property.
  abbrev AreKnown : Text → List (Reading V) → Dict Text (Option V) → Type 0
  AreKnown d [] values = Unit {0}
  AreKnown d (r ∷ rs) values =
      (is_accepted r ≡ true → same (known d r.key values) r.value ≡ true) × AreKnown d rs values

  module _ (d : Text) (miot_id now : ℕ) where
    publish-refused :
        (on_change : Bool) (r : Reading V) (values : Dict Text (Option V))
        → is_accepted r ≡ false
        → publish d miot_id now on_change r values ≡ (values, [])
    unfolding publish
    publish-refused on_change r values h = ground (arith, h)

    -- What a device refused is neither remembered nor emitted: the readings may be cut down to the
    -- accepted ones beforehand.
    pub publish_all-filter :
        (on_change : Bool) (rs : List (Reading V)) (values : Dict Text (Option V))
        → publish_all d miot_id now on_change rs values
          ≡ publish_all d miot_id now on_change (filter is_accepted rs) values
    unfolding publish_all
    publish_all-filter on_change [] values = refl
    publish_all-filter on_change (r ∷ rs) values = elim (Bool-cases (is_accepted r)) [
      | inl taken ↦
          rw (taken, publish_all-filter on_change rs (publish d miot_id now on_change r values).0)
            refl
      | inr refused ↦
          rw (refused, publish-refused on_change r values refused)
            (publish_all-filter on_change rs values)
    ]

    publish-change :
        (r : Reading V) (values : Dict Text (Option V))
        → every is_change (publish d miot_id now true r values).1 ≡ true
    unfolding publish
    publish-change r values = ground arith

    -- Under `dispatchOnChange` every emitted event is a change: its old value is not its new one.
    pub publish_all-change :
        (rs : List (Reading V)) (values : Dict Text (Option V))
        → every is_change (publish_all d miot_id now true rs values).1 ≡ true
    unfolding publish_all
    publish_all-change [] values = refl
    publish_all-change (r ∷ rs) values =
        let values' = (publish d miot_id now true r values).0 in
        every-append is_change (publish d miot_id now true r values).1
          (publish_all d miot_id now true rs values').1
        ∙ rw (publish-change r values) (publish_all-change rs values')

    publish-known :
        (r : Reading V) (values : Dict Text (Option V))
        → is_accepted r ≡ true
        → same (known d r.key (publish d miot_id now true r values).0) r.value ≡ true
    unfolding publish
    publish-known r values h =
        ground
          (arith, h, known-insert d r.key r.key r.value values, eq_self r.key, same_refl r.value)

    publish-other :
        (q : Text) (r : Reading V) (values : Dict Text (Option V))
        → (r.key == q) ≡ false
        → known d q (publish d miot_id now true r values).0 ≡ known d q values
    unfolding publish
    publish-other q r values h = ground (arith, h, known-insert d r.key q r.value values)

    publish-again :
        (r : Reading V) (values : Dict Text (Option V))
        → same (known d r.key values) r.value ≡ true
        → publish d miot_id now true r values ≡ (values, [])
    unfolding publish
    publish-again r values h = ground (arith, h)

    publish_all-other :
        (q : Text) (rs : List (Reading V)) (values : Dict Text (Option V))
        → any (λ x. x.key == q) rs ≡ false
        → known d q (publish_all d miot_id now true rs values).0 ≡ known d q values
    unfolding publish_all
    publish_all-other q [] values h = refl
    publish_all-other q (r ∷ rs) values h =
        publish_all-other q rs (publish d miot_id now true r values).0 (ground (arith, h))
        ∙ publish-other q r values (ground (arith, h))

    publish_all-AreKnown :
        (rs : List (Reading V)) (values : Dict Text (Option V))
        → AreDistinct rs
        → AreKnown d rs (publish_all d miot_id now true rs values).0
    unfolding publish_all
    publish_all-AreKnown [] values distinct = tt
    publish_all-AreKnown (r ∷ rs) values (fresh, distinct) =
        let values' = (publish d miot_id now true r values).0 in
        (
          (λ taken. rw (publish_all-other r.key rs values' fresh) (publish-known r values taken)),
          publish_all-AreKnown rs values' distinct,
        )

    AreKnown-publish_all :
        (rs : List (Reading V)) (values : Dict Text (Option V))
        → AreKnown d rs values
        → publish_all d miot_id now true rs values ≡ (values, [])
    unfolding publish_all
    AreKnown-publish_all [] values h = refl
    AreKnown-publish_all (r ∷ rs) values (known_r, h) = elim (Bool-cases (is_accepted r)) [
      | inl taken ↦
          rw (publish-again r values (known_r taken), AreKnown-publish_all rs values h) refl
      | inr refused ↦
          rw (publish-refused true r values refused, AreKnown-publish_all rs values h) refl
    ]

  -- Under `dispatchOnChange`, a device that gives the same answer again, whose properties are all
  -- different, causes no event the second time, at whatever time that is.
  read_device-again :
      (is_enabled : PollingConfig → Bool) (config : PollingConfig) (d : Text)
      (miot_id now later : ℕ) (rs : List (Reading V)) (s : Poller V)
      → is_enabled config ≡ true
      → config.dispatch_on_change ≡ true
      → AreDistinct rs
      → (read_device is_enabled
          (some config)
          later
          d
          (ok (miot_id, rs))
          (read_device is_enabled (some config) now d (ok (miot_id, rs)) s).1).2
        ≡ []
  unfolding read_device
  read_device-again is_enabled config d miot_id now later rs s on changes distinct =
      rw (on, changes)
        (ap (λ x. x.1)
          (AreKnown-publish_all d miot_id later rs
            (publish_all d miot_id now true rs s.last_values).0
            (publish_all-AreKnown d miot_id now rs s.last_values distinct)))
