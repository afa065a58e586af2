-- ===== src/Tests/Http.antt =====
-- packages/http-provider at concrete inputs.
use iot_miniservers.Prelude.{
  ℕ, ◌+◌, ◌*◌, ◌≤◌, ◌≡◌, ◌⊎◌, inl, inr, refl, sym, ap, Bool-cases, Bool, false, true, ◌&&◌, none,
  some, List, [], ◌∷◌, Text, text, arith, every, length, nat_eqb, ltb, if◌then◌else◌, text_eq,
}
use iot_miniservers.Prelude.Result.{ok, err}
use iot_miniservers.Http.Credentials.{
  Occasion, wanted, invalidated, fetched, unused, happen_all, happen, get_credentials,
  join_or_start, invalidate,
}
use iot_miniservers.Http.Single.{IsSingle, happen_all-IsSingle}
use iot_miniservers.Http.Transport.{
  TransportConfig, static_entry, credential_entry, Outbound, is_ok, is_served, apply_transport,
  apply_transport-is_ok,
}
use mathlib.Core.Option
use iot_miniservers.Resilience.Policy.{
  failed, execute_with_retries, execute_from, after_attempt, wait_for_retry_backoff,
  execute_with_parent_cancellation,
}
use iot_miniservers.Http.Requests.{RequestConfig, HttpError, Wire, Sent, replayed, perform_request}
use iot_miniservers.Http.Adapter.{PolicyRequestConfig, wrap_adapter}
use iot_miniservers.Http.Calls.{Instance, wire_of}
use iot_miniservers.Http.Carried.{IsMeasured}
use iot_miniservers.Http.Budget.{perform_request-calls}
use iot_miniservers.Http.Retries.{IsPlain, Within, perform_request-Within, perform_request-endless}

-- The first fetch is overtaken by an invalidation and ends last.
abbrev overtaken : List (Occasion Text ℕ)
overtaken =
    wanted 1 0
    ∷ invalidated
    ∷ wanted 2 5
    ∷ wanted 3 6
    ∷ fetched 1 7 (ok 20)
    ∷ fetched 0 8 (ok 10)
    ∷ wanted 4 9
    ∷ []

unused-IsSingle : IsSingle {C = ℕ} unused
unused-IsSingle = record {
  current = tt;
  past = λ epoch later. refl;
  single = omega arith;
  joined = λ more. absurd (omega (arith, more));
}

happen_all-IsSingle_example : IsSingle (happen_all none overtaken unused).1
happen_all-IsSingle_example = happen_all-IsSingle none overtaken unused unused-IsSingle

later_value :
    (happen_all none overtaken unused).0 ≡ (3, ok 20) ∷ (2, ok 20) ∷ (1, ok 10) ∷ (4, ok 20) ∷ []
unfolding happen_all happen get_credentials join_or_start invalidate
later_value = refl

abbrev filled : Text → Bool
filled value = ltb 0 (length value)

abbrev bearer : TransportConfig
bearer = record {
  headers =
      credential_entry (text "Authorization") (text "value") (some (text "Bearer ")) none
      ∷ static_entry (text "X-Client") (text "iot")
      ∷ [];
  query_params = [];
}

abbrev blank : Outbound (List (Text × Text))
blank = record { header_set = []; params = [] }

apply_transport-is_ok_example :
    is_ok (
      apply_transport filled
        ((text "value", []) ∷ [])
        (λ name value h. (name, value) ∷ h)
        bearer
        blank)
    ≡ (every (is_served filled ((text "value", []) ∷ [])) bearer.headers
        && every (is_served filled ((text "value", []) ∷ [])) bearer.query_params)
apply_transport-is_ok_example =
    apply_transport-is_ok filled ((text "value", []) ∷ []) (λ name value h. (name, value) ∷ h)
      bearer blank

-- The world counts the tokens; only the second is accepted.
abbrev wire : Wire ℕ Text ℕ ℕ
wire = record {
  credentials_of = λ w. (ok w, w);
  invalidate_all = λ w. w + 1;
  send = λ config c w. (
    if nat_eqb c 0
        then err (record { status = some 401; config = some config; reason = text "stale" })
        else ok c,
    w,
  );
}

wire-own :
    (config : RequestConfig Text) (c w : ℕ) (e : HttpError Text)
    → (wire.send config c w).0 ≡ err e
    → (e.config ≡ none)
      ⊎ ((other : RequestConfig Text) × (e.config ≡ some other) × (other.retried ≡ config.retried))
wire-own config c w e h = elim (Bool-cases (nat_eqb c 0)) [
  | inl stale ↦
      let same : record { status = some 401; config = some config; reason = text "stale" } ≡ e =
        ground (arith, h, stale) in
      inr (config, sym (ap (λ x. x.config) same), refl)
  | inr good ↦ ground (arith, h, good)
]

wire-IsPlain : IsPlain wire
wire-IsPlain = record { own = wire-own; unrefused = λ w e h. ground (arith, h) }

abbrev asking : RequestConfig Text
asking = record { request = text "/data"; retried = false }

perform_request-Within_example : Within 2 (perform_request wire 2 asking 0)
perform_request-Within_example = perform_request-Within wire wire-IsPlain 0 asking 0

sent_twice :
    perform_request wire 2 asking 0
    ≡ some (record { result = ok 1; world = 1; sent = text "/data" ∷ text "/data" ∷ [] })
unfolding perform_request replayed
sent_twice = refl

-- The token endpoint refuses its client.
abbrev refusal : HttpError Text
refusal = record {
  status = some 401;
  config = some (record { request = text "/token"; retried = false });
  reason = text "unauthorized";
}

abbrev locked_out : Wire ℕ Text ℕ ℕ
locked_out = record wire { credentials_of = λ w. (err refusal, w + 1) }

refusal-replayed : replayed refusal ≡ some (record { request = text "/token"; retried = false })
unfolding replayed
refusal-replayed = refl

perform_request-endless_example : perform_request locked_out 1000 asking 0 ≡ none
perform_request-endless_example =
    perform_request-endless locked_out
      (λ w. (refusal, record { request = text "/token"; retried = false }, refl, refusal-replayed))
      1000 asking 0

-- A client whose every call is answered 401: three attempts behind each of two rounds.
abbrev refused_client : Instance ℕ Text Text ℕ ℕ
refused_client = record {
  env = record {
    aborted = λ w. false;
    microtask = λ w. w;
    delay = λ ms w. w;
    should_handle = λ e. true;
  };
  attempt_policy = λ fn. fn;
  retry = record { count = 2; backoff_ms = 10 };
  default_adapter = λ q w. (err (failed (text "401")), w + 1);
  authorize = λ c q. ok q;
  describe = λ f config. record { status = some 401; config = some config; reason = text "401" };
  credentials_of = λ w. (ok 5, w);
  invalidate = λ w. w;
}

refused_client-IsMeasured : IsMeasured (λ w. w) refused_client
refused_client-IsMeasured = record {
  frugal = record {
    microtask_waits = λ w. refl;
    delay_waits = λ ms w. refl;
    once = λ fn single w. single w;
  };
  single = λ q w. omega arith;
  asks = λ w. refl;
  forgets = λ w. refl;
  own = λ f config. inr (config, refl, refl, refl);
  unrefused = λ w e h. ground (arith, h);
}

abbrev first_request : RequestConfig (PolicyRequestConfig ℕ Text Text ℕ)
first_request = record {
  request = record { request = text "/data"; has_signal = false; adapter = none; base = none };
  retried = false;
}

-- Six calls: as many as the bound allows.
six_calls :
    Option.map (λ o. o.world) (perform_request (wire_of refused_client) 2 first_request 0) ≡ some 6
unfolding perform_request wire_of wrap_adapter execute_with_retries execute_from after_attempt
    wait_for_retry_backoff execute_with_parent_cancellation replayed
six_calls = refl

perform_request-calls_example :
    (o : Sent ℕ (PolicyRequestConfig ℕ Text Text ℕ) ℕ) × (perform_request
        (wire_of refused_client)
        2
        first_request
        0
      ≡ some o)
    × (o.world ≤ 0 + 2 * (2 + 1))
perform_request-calls_example =
    perform_request-calls (λ w. w) refused_client refused_client-IsMeasured 0 first_request 0
      (inl (refl, refl))
