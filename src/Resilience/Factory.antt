-- ===== src/Resilience/Factory.antt =====
-- packages/resilience/src/ResiliencePolicyFactory.ts. `create` is `createResiliencePolicy`; a policy
-- keeps the state of its breaker, so that it matters to get the same one. `made` counts the calls.
use iot_miniservers.Prelude.{
  ℕ, ◌+◌, ◌≡◌, refl, Option, none, some, ◌++◌, Text, text, arith, text_eq,
}
use iot_miniservers.Prelude.Dict
use iot_miniservers.Prelude.Dict.{Dict, get-insert, eq_self}
use iot_miniservers.Prelude.Result.{Result, ok, err}

pub record Factory (C O P : Type 0) : Type 0 where
  pub policies : Dict Text P
  pub config : Dict Text C
  pub options : Dict Text O
  pub made : ℕ

module _ {C O P : Type 0} (create : C → Option O → P) where
  abbrev configured : Text → Option C → Factory C O P → Result Text P × Factory C O P
  configured key none s =
      (err (text "Resilience policy \"" ++ (key ++ text "\" is not configured")), s)
  configured key (some config) s =
      let policy = create config (Dict.get key s.options) in
      (ok policy, record s { policies = Dict.insert key policy s.policies; made = s.made + 1 })

  abbrev known : Text → Option P → Factory C O P → Result Text P × Factory C O P
  known key (some policy) s = (ok policy, s)
  known key none s = configured key (Dict.get key s.config) s

  unfoldable pub get_policy : Text → Factory C O P → Result Text P × Factory C O P
  get_policy key s = known key (Dict.get key s.policies) s

  known-get :
      (key : Text) (policy : P) (s : Factory C O P)
      → Dict.get key s.policies ≡ some policy
      → get_policy key s ≡ (ok policy, s)
  unfolding get_policy
  known-get key policy s h = rw h refl

  configured-again :
      (key : Text) (config : Option C) (policy : P) (s : Factory C O P)
      → (configured key config s).0 ≡ ok policy
      → get_policy key (configured key config s).1 ≡ (ok policy, (configured key config s).1)
  configured-again key none policy s h = ground (arith, h)
  configured-again key (some config) policy s h =
      known-get key policy (configured key (some config) s).1 (
        ground (
          arith,
          h,
          eq_self key,
          get-insert key key (create config (Dict.get key s.options)) s.policies,
        ))

  known-again :
      (key : Text) (found : Option P) (policy : P) (s : Factory C O P)
      → Dict.get key s.policies ≡ found
      → (known key found s).0 ≡ ok policy
      → get_policy key (known key found s).1 ≡ (ok policy, (known key found s).1)
  known-again key none policy s _ h = configured-again key (Dict.get key s.config) policy s h
  known-again key (some held) policy s old h = known-get key policy s (ground (arith, old, h))

  -- A key that has given a policy gives that same policy ever after, and nothing is made again.
  pub get_policy-again :
      (key : Text) (policy : P) (s : Factory C O P)
      → (get_policy key s).0 ≡ ok policy
      → get_policy key (get_policy key s).1 ≡ (ok policy, (get_policy key s).1)
  unfolding get_policy
  get_policy-again key policy s h = known-again key (Dict.get key s.policies) policy s refl h
