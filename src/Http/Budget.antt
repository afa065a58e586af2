-- ===== src/Http/Budget.antt =====
-- packages/http-provider/src/HttpProviderFactory.ts with packages/resilience: how many calls of the adapter one request
-- costs, with the retries of the policy and the replay behind a 401.
use iot_miniservers.Prelude.{
  ℕ, zero, suc, ◌+◌, ◌*◌, ◌≤◌, ◌≡◌, refl, Option, none, some, List, [], ◌∷◌, ◌++◌, Text, arith,
  length, length-append,
}
use iot_miniservers.Prelude.Result.{Result, ok, err}
use iot_miniservers.Http.Adapter.{PolicyRequestConfig, wrap_adapter, through_policy-le}
use iot_miniservers.Http.Requests.{
  HttpError, Sent, replayed, marked, prepended, on_error, on_response, with_credentials,
  perform_request,
}
use iot_miniservers.Http.Retries.{perform_request-Within}
use iot_miniservers.Http.Calls.{Instance, Config, dispatch, wire_of}
use iot_miniservers.Http.Carried.{
  IsMeasured, IsPlainConfig, base_lem, described-world, Carried, dispatch-Carried, replayed-IsPlain,
  wire_of-IsPlain,
}

module _ {W Q E C A : Type 0} (calls : W → ℕ) (i : Instance W Q E C A)
    (measured : IsMeasured calls i) where
  dispatch-le :
      (config : Config i) (r : Result Text Q) (w : W)
      → IsPlainConfig i config.request
      → calls (dispatch i config r w).1 ≤ calls w + (i.retry.count + 1)
  unfolding wrap_adapter
  dispatch-le config (err m) w plain = omega arith
  dispatch-le config (ok q) w plain =
      rw (described-world i, base_lem i config.request plain)
        (through_policy-le calls i.env i.attempt_policy measured.frugal (i.default_adapter q)
          (measured.single q) config.request.has_signal i.retry w)

  -- What a run costs, however it ends.
  abbrev Costs : W → Option (Sent W (PolicyRequestConfig W Q E A) A) → Type 0
  Costs w run =
      (o : Sent W (PolicyRequestConfig W Q E A) A)
      → run ≡ some o
      → calls o.world ≤ calls w + (i.retry.count + 1) * length o.sent

  product_add : (k m n : ℕ) → k * m + k * n ≡ k * (m + n)
  product_add k m n = grind arith

  prepended-Costs :
      (sent : List (PolicyRequestConfig W Q E A))
      (run : Option (Sent W (PolicyRequestConfig W Q E A) A)) (v w : W)
      → calls v ≤ calls w + (i.retry.count + 1) * length sent
      → Costs v run
      → Costs w (prepended sent run)
  prepended-Costs sent none v w before rest o e = cc
  prepended-Costs sent (some o') v w before rest o e =
      let same : record o' { sent = sent ++ o'.sent } ≡ o = ground (arith, e) in
      rw (← same, length-append sent o'.sent)
        (omega (
          arith,
          before,
          rest o' refl,
          product_add (i.retry.count + 1) (length sent) (length o'.sent),
        ))

  answered-Costs :
      (r : Result (HttpError (PolicyRequestConfig W Q E A)) A) (v w : W)
      (sent : List (PolicyRequestConfig W Q E A))
      → calls v ≤ calls w + (i.retry.count + 1) * length sent
      → Costs w (some (record { result = r; world = v; sent = sent }))
  answered-Costs r v w sent before o e =
      let same : record { result = r; world = v; sent = sent } ≡ o = ground (arith, e) in
      rw (← same) before

  one_sent :
      (v w : W) (q : PolicyRequestConfig W Q E A)
      → calls v ≤ calls w + (i.retry.count + 1)
      → calls v ≤ calls w + (i.retry.count + 1) * length (q ∷ [])
  one_sent v w q h = grind (arith, h)

  module _ (again : Config i → W → Option (Sent W (PolicyRequestConfig W Q E A) A))
      (costs : (config : Config i) (w : W)
        → IsPlainConfig i config.request
        → Costs w (again config w)) where
    on_error-Costs :
        (e : HttpError (PolicyRequestConfig W Q E A)) (other : Option (Config i)) (v w : W)
        (sent : List (PolicyRequestConfig W Q E A))
        → calls v ≤ calls w + (i.retry.count + 1) * length sent
        → ((c : Config i) → other ≡ some c → IsPlainConfig i c.request)
        → Costs w (on_error (wire_of i) again e other v sent)
    unfolding wire_of
    on_error-Costs e none v w sent before plain = answered-Costs (err e) v w sent before
    on_error-Costs e (some c) v w sent before plain =
        prepended-Costs sent (again (marked c) (i.invalidate v)) (i.invalidate v) w
          (omega (arith, before, measured.forgets v))
          (costs (marked c) (i.invalidate v) (plain c refl))

    on_response-Costs :
        (config : Config i) (r : Result (HttpError (PolicyRequestConfig W Q E A)) A × W) (w : W)
        → calls r.1 ≤ calls w + (i.retry.count + 1)
        → ((e : HttpError (PolicyRequestConfig W Q E A)) → r.0 ≡ err e → Carried i config e)
        → Costs w (on_response (wire_of i) again (config.request ∷ []) r)
    on_response-Costs config (ok a, v) w before carried =
        answered-Costs (ok a) v w (config.request ∷ []) (one_sent v w config.request before)
    on_response-Costs config (err e, v) w before carried =
        on_error-Costs e (replayed e) v w (config.request ∷ []) (one_sent v w config.request before)
          (λ c h. replayed-IsPlain calls i measured config c e (carried e refl) h)

    with_credentials-Costs :
        (config : Config i) (w : W) (r : Result (HttpError (PolicyRequestConfig W Q E A)) C × W)
        → IsPlainConfig i config.request
        → calls r.1 ≡ calls w
        → ((e : HttpError (PolicyRequestConfig W Q E A)) → r.0 ≡ err e → replayed e ≡ none)
        → Costs w (with_credentials (wire_of i) again config r)
    unfolding wire_of
    with_credentials-Costs config w (ok c, v) plain asked refused =
        on_response-Costs config (dispatch i config (i.authorize c config.request.request) v) w
          (omega (arith, asked, dispatch-le config (i.authorize c config.request.request) v plain))
          (λ e h.
            dispatch-Carried calls i measured config (i.authorize c config.request.request) v e
              plain h)
    with_credentials-Costs config w (err e, v) plain asked refused =
        rw (refused e refl) (answered-Costs (err e) v w [] (grind (arith, asked)))

  perform_request-Costs :
      (fuel : ℕ) (config : Config i) (w : W)
      → IsPlainConfig i config.request
      → Costs w (perform_request (wire_of i) fuel config w)
  unfolding perform_request wire_of
  perform_request-Costs zero config w plain = λ o e. cc
  perform_request-Costs (suc fuel) config w plain =
      with_credentials-Costs (perform_request (wire_of i) fuel)
        (λ c v p. perform_request-Costs fuel c v p) config w (i.credentials_of w) plain
        (measured.asks w) (measured.unrefused w)

  doubled : (k n : ℕ) → n ≤ 2 → k * n ≤ 2 * k
  doubled k n h = grind arith

  -- A request of a client whose policy retries always ends, and costs at most twice one more call of
  -- the adapter than there are retries: the replay behind a 401 goes through the policy once, not
  -- through a policy within a policy. It is relied on what IsMeasured says of the surroundings.
  pub perform_request-calls :
      (fuel : ℕ) (config : Config i) (w : W)
      → IsPlainConfig i config.request
      → (o : Sent W (PolicyRequestConfig W Q E A) A) × (perform_request
            (wire_of i)
            (suc (suc fuel))
            config
            w
          ≡ some o)
        × (calls o.world ≤ calls w + 2 * (i.retry.count + 1))
  perform_request-calls fuel config w plain =
      let (o, ended, few) =
        perform_request-Within (wire_of i) (wire_of-IsPlain calls i measured) fuel config w in
      let cost = perform_request-Costs (suc (suc fuel)) config w plain o ended in
      (o, ended, omega (arith, cost, doubled (i.retry.count + 1) (length o.sent) few))
