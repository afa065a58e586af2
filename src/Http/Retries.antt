-- ===== src/Http/Retries.antt =====
-- packages/http-provider/src/HttpProviderFactory.ts: how often a request is sent.
use iot_miniservers.Prelude.{
  ℕ, zero, suc, ◌≤◌, ◌≡◌, ◌⊎◌, inl, inr, refl, ap, true, Option, none, some, List, [], ◌∷◌, arith,
  length, length-append, Bool-cases,
}
use iot_miniservers.Prelude.Result.{Result, ok, err}
use iot_miniservers.Http.Requests.{
  RequestConfig, HttpError, Wire, Sent, is_unauthorized, replayed, marked, on_error, on_response,
  with_credentials, perform_request,
}

-- What is relied on: an error of a request that was sent carries the configuration of that
-- request, if any, whose mark is the same, and no error of getting credentials is one that has a request sent again.
pub record IsPlain {W R C A : Type 0} (wire : Wire W R C A) : Type 0 where
  pub own :
      (config : RequestConfig R) (c : C) (w : W) (e : HttpError R)
      → (wire.send config c w).0 ≡ err e
      → (e.config ≡ none)
        ⊎ ((other : RequestConfig R) × (e.config ≡ some other) × (other.retried ≡ config.retried))
  pub unrefused : (w : W) (e : HttpError R) → (wire.credentials_of w).0 ≡ err e → replayed e ≡ none

replayed-own :
    {R : Type 0} (config : RequestConfig R) (e : HttpError R)
    → config.retried ≡ true
    → (e.config ≡ none)
      ⊎ ((other : RequestConfig R) × (e.config ≡ some other) × (other.retried ≡ config.retried))
    → replayed e ≡ none
unfolding replayed
replayed-own config e h carried = elim (Bool-cases (is_unauthorized e.status)) [
  | inr other ↦ rw other refl
  | inl refused ↦ elim carried [
    | inl nothing ↦ rw (refused, nothing) refl
    | inr (other, same, mark) ↦ rw (refused, same, mark, h) refl
  ]
]

-- A run that has ended after at most `n` were sent.
abbrev pub Within : {W R A : Type 0} → ℕ → Option (Sent W R A) → Type 0
Within {W} {R} {A} n run = (o : Sent W R A) × (run ≡ some o) × (length o.sent ≤ n)

module _ {W R C A : Type 0} (wire : Wire W R C A) where
  module _ (plain : IsPlain wire) where
    marked_sent-Within :
        (again : RequestConfig R → W → Option (Sent W R A)) (config : RequestConfig R) (c : C)
        (w : W) (a : Result (HttpError R) A × W)
        → config.retried ≡ true
        → wire.send config c w ≡ a
        → Within 1 (on_response wire again (config.request ∷ []) a)
    marked_sent-Within again config c w (ok a, v) h same = (_, refl, omega arith)
    marked_sent-Within again config c w (err e, v) h same =
        rw (replayed-own config e h (plain.own config c w e (ap (λ x. x.0) same)))
          (_, refl, omega arith)

    marked_ready-Within :
        (again : RequestConfig R → W → Option (Sent W R A)) (config : RequestConfig R) (w : W)
        (c : Result (HttpError R) C × W)
        → config.retried ≡ true
        → wire.credentials_of w ≡ c
        → Within 1 (with_credentials wire again config c)
    marked_ready-Within again config w (ok c, v) h same =
        marked_sent-Within again config c v _ h refl
    marked_ready-Within again config w (err e, v) h same =
        rw (plain.unrefused w e (ap (λ x. x.0) same)) (_, refl, omega arith)

    -- A request that carries the mark is sent at most once.
    marked-Within :
        (fuel : ℕ) (config : RequestConfig R) (w : W)
        → config.retried ≡ true
        → Within 1 (perform_request wire (suc fuel) config w)
    unfolding perform_request
    marked-Within fuel config w h =
        marked_ready-Within (perform_request wire fuel) config w _ h refl

    on_error-Within :
        (fuel : ℕ) (e : HttpError R) (again : Option (RequestConfig R)) (w : W) (sent : List R)
        → length sent ≤ 1
        → Within 2 (on_error wire (perform_request wire (suc fuel)) e again w sent)
    on_error-Within fuel e none w sent h = (_, refl, omega (arith, h))
    on_error-Within fuel e (some config) w sent h =
        let (o, ended, few) = marked-Within fuel (marked config) (wire.invalidate_all w) refl in
        rw ended (_, refl, omega (arith, h, few, length-append sent o.sent))

    ready-Within :
        (fuel : ℕ) (config : RequestConfig R) (c : Result (HttpError R) C × W)
        → Within 2 (with_credentials wire (perform_request wire (suc fuel)) config c)
    ready-Within fuel config (ok c, v) = answered (wire.send config c v)
      where
        answered :
            (a : Result (HttpError R) A × W)
            → Within 2 (on_response wire (perform_request wire (suc fuel)) (config.request ∷ []) a)
        answered (ok a, u) = (_, refl, omega arith)
        answered (err e, u) =
            on_error-Within fuel e (replayed e) u (config.request ∷ []) (omega arith)
    ready-Within fuel config (err e, v) = on_error-Within fuel e (replayed e) v [] (omega arith)

    -- When an error of getting credentials never looks like a refused request, and an error of a request carries no
    -- configuration but one with the mark of its own, a request always ends, with two rounds at most, and at most two
    -- requests are sent.
    pub perform_request-Within :
        (fuel : ℕ) (config : RequestConfig R) (w : W)
        → Within 2 (perform_request wire (suc (suc fuel)) config w)
    unfolding perform_request
    perform_request-Within fuel config w = ready-Within fuel config (wire.credentials_of w)

  refused_again :
      (again : RequestConfig R → W → Option (Sent W R A)) (config : RequestConfig R)
      (c : Result (HttpError R) C × W) (e : HttpError R) (other : RequestConfig R)
      → c.0 ≡ err e
      → replayed e ≡ some other
      → ((config : RequestConfig R) (w : W) → again config w ≡ none)
      → with_credentials wire again config c ≡ none
  refused_again again config (ok c, v) e other h k ends = ground (arith, h)
  refused_again again config (err x, v) e other h k ends =
      let same : x ≡ e = ground (arith, h) in
      rw (same, k, ends (marked other) (wire.invalidate_all v)) refl

  -- When every attempt to get credentials fails with an error that looks like a refused request, a 401 of
  -- the token endpoint whose configuration is always a new one, no number of rounds ever answers a
  -- request.
  pub perform_request-endless :
      ((w : W)
        → (e : HttpError R) × (other : RequestConfig R) × ((wire.credentials_of w).0 ≡ err e)
          × (replayed e ≡ some other))
      → (fuel : ℕ) (config : RequestConfig R) (w : W) → perform_request wire fuel config w ≡ none
  unfolding perform_request
  perform_request-endless refused zero config w = refl
  perform_request-endless refused (suc fuel) config w =
      let (e, other, failed, replay) = refused w in
      refused_again (perform_request wire fuel) config (wire.credentials_of w) e other failed replay
        (perform_request-endless refused fuel)
