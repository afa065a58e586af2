-- ===== src/Http/Carried.antt =====
-- packages/http-provider/src/HttpProviderFactory.ts: the configuration that the error of a call carries, which its replay sends
-- again.
use iot_miniservers.Prelude.{
  ℕ, ◌+◌, ◌≤◌, ◌≡◌, ◌⊎◌, inl, inr, refl, sym, ap, ◌∙◌, Option, none, some, Text, or_else, arith,
  Bool-cases,
}
use iot_miniservers.Prelude.Result.{Result, ok, err}
use iot_miniservers.Resilience.Policy.{Failure}
use iot_miniservers.Http.Adapter.{PolicyRequestConfig, wrap_adapter, IsFrugal}
use iot_miniservers.Http.Requests.{RequestConfig, HttpError, replayed, unmarked, is_unauthorized}
use iot_miniservers.Http.Retries.{IsPlain}
use iot_miniservers.Http.Calls.{Instance, Config, described, dispatch, wire_of}

-- What is relied on, for a count `calls` of the calls of the adapter: one call counts once, getting and dropping
-- credentials counts none, an error carries no configuration or one with the mark and the memoised adapter of the one that
-- was sent (the policy puts its signal on it), and no error of
-- getting credentials has a request sent again.
pub record IsMeasured {W Q E C A : Type 0} (calls : W → ℕ) (i : Instance W Q E C A) : Type 0 where
  pub frugal : IsFrugal calls i.env i.attempt_policy
  pub single : (q : Q) (w : W) → calls (i.default_adapter q w).1 ≤ calls w + 1
  pub asks : (w : W) → calls (i.credentials_of w).1 ≡ calls w
  pub forgets : (w : W) → calls (i.invalidate w) ≡ calls w
  pub own :
      (f : Failure E) (config : Config i)
      → ((i.describe f config).config ≡ none)
        ⊎ ((other : Config i) × ((i.describe f config).config ≡ some other)
            × (other.retried ≡ config.retried)
            × (other.request.base ≡ config.request.base))
  pub unrefused :
      (w : W) (e : HttpError (PolicyRequestConfig W Q E A))
      → (i.credentials_of w).0 ≡ err e
      → replayed e ≡ none

module _ {W Q E C A : Type 0} (i : Instance W Q E C A) where
  -- A configuration that has no adapter of its own, or one that was wrapped before.
  abbrev pub IsPlainConfig : PolicyRequestConfig W Q E A → Type 0
  IsPlainConfig config =
      ((config.base ≡ none) × (config.adapter ≡ none)) ⊎ (config.base ≡ some i.default_adapter)

  pub base_lem :
      (config : PolicyRequestConfig W Q E A)
      → IsPlainConfig config
      → or_else config.base (or_else config.adapter i.default_adapter) ≡ i.default_adapter
  base_lem config (inl (unwrapped, unset)) = rw (unwrapped, unset) refl
  base_lem config (inr wrapped) = rw wrapped refl

  pub described-world :
      (config : Config i) (r : Result (Failure E) A × W) → (described i config r).1 ≡ r.1
  described-world config (ok a, w) = refl
  described-world config (err f, w) = refl

  -- The configuration that an error carries, if any: it has the same mark, and can be wrapped again.
  abbrev pub Carried : Config i → HttpError (PolicyRequestConfig W Q E A) → Type 0
  Carried config e =
      (e.config ≡ none)
      ⊎ ((other : Config i) × (e.config ≡ some other)
          × (other.retried ≡ config.retried)
          × IsPlainConfig other.request)

abbrev config_of : {R A : Type 0} → Result (HttpError R) A → Option (RequestConfig R)
config_of (ok a) = none
config_of (err e) = e.config

unmarked-config :
    {R : Type 0} (o : Option (RequestConfig R)) (c : RequestConfig R)
    → unmarked o ≡ some c
    → o ≡ some c
unmarked-config none c h = h
unmarked-config (some other) c h = ground (arith, h)

replayed-config :
    {R : Type 0} (e : HttpError R) (c : RequestConfig R) → replayed e ≡ some c → e.config ≡ some c
unfolding replayed
replayed-config e c h = elim (Bool-cases (is_unauthorized e.status)) [
  | inl refused ↦ unmarked-config e.config c (rw refused at h)
  | inr other ↦ absurd (ground (arith, other, h))
]

module _ {W Q E C A : Type 0} (calls : W → ℕ) (i : Instance W Q E C A)
    (measured : IsMeasured calls i) where
  described-Carried :
      (config sent : Config i) (r : Result (Failure E) A × W)
      (e : HttpError (PolicyRequestConfig W Q E A))
      → sent.retried ≡ config.retried
      → sent.request.base ≡ some i.default_adapter
      → (described i sent r).0 ≡ err e
      → Carried i config e
  described-Carried config sent (ok a, w) e mark plain h = absurd (ground (arith, h))
  described-Carried config sent (err f, w) e mark plain h =
      let same : i.describe f sent ≡ e = ground (arith, h) in
      elim (measured.own f sent) [
        | inl nothing ↦ inl (ap (λ x. x.config) (sym same) ∙ nothing)
        | inr (other, it, unchanged, base) ↦
            inr (other, ap (λ x. x.config) (sym same) ∙ it, unchanged ∙ mark, inr (base ∙ plain))
      ]

  pub dispatch-Carried :
      (config : Config i) (r : Result Text Q) (w : W) (e : HttpError (PolicyRequestConfig W Q E A))
      → IsPlainConfig i config.request
      → (dispatch i config r w).0 ≡ err e
      → Carried i config e
  unfolding wrap_adapter
  dispatch-Carried config (err m) w e plain h = inl (ap (λ x. config_of x) (sym h))
  dispatch-Carried config (ok q) w e plain h =
      described-Carried config _ _ e refl (ap some (base_lem i config.request plain)) h

  pub replayed-IsPlain :
      (config c : Config i) (e : HttpError (PolicyRequestConfig W Q E A))
      → Carried i config e
      → replayed e ≡ some c
      → IsPlainConfig i c.request
  replayed-IsPlain config c e (inl nothing) h =
      absurd (ground (arith, nothing, replayed-config e c h))
  replayed-IsPlain config c e (inr (other, same, mark, plain)) h =
      let it : other ≡ c = ground (arith, same, replayed-config e c h) in rw (← it) plain

  dispatch-own :
      (config : Config i) (r : Result Text Q) (w : W) (e : HttpError (PolicyRequestConfig W Q E A))
      → (dispatch i config r w).0 ≡ err e
      → (e.config ≡ none)
        ⊎ ((other : Config i) × (e.config ≡ some other) × (other.retried ≡ config.retried))
  dispatch-own config (err m) w e h = inl (ap (λ x. config_of x) (sym h))
  dispatch-own config (ok q) w e h = marked_own _ _ h
    where
      marked_own :
          (sent : Config i) (r : Result (Failure E) A × W)
          → (described i sent r).0 ≡ err e
          → (e.config ≡ none)
            ⊎ ((other : Config i) × (e.config ≡ some other) × (other.retried ≡ sent.retried))
      marked_own sent (ok a, v) k = absurd (ground (arith, k))
      marked_own sent (err f, v) k =
          let same : i.describe f sent ≡ e = ground (arith, k) in
          elim (measured.own f sent) [
            | inl nothing ↦ inl (ap (λ x. x.config) (sym same) ∙ nothing)
            | inr (other, it, unchanged, base) ↦
                inr (other, ap (λ x. x.config) (sym same) ∙ it, unchanged)
          ]

  pub wire_of-IsPlain : IsPlain (wire_of i)
  unfolding wire_of
  wire_of-IsPlain = record {
    own = λ config c w e h. dispatch-own config (i.authorize c config.request.request) w e h;
    unrefused = measured.unrefused;
  }
