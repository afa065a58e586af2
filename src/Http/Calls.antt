-- ===== src/Http/Calls.antt =====
-- packages/http-provider/src/HttpProviderFactory.ts: a request of a client with
-- credentials and a resilience policy.
use iot_miniservers.Prelude.{none, Text, or_else}
use iot_miniservers.Prelude.Result.{Result, ok, err}
use iot_miniservers.Resilience.Policy.{Failure, Surroundings, RetryConfig, Call}
use iot_miniservers.Http.Adapter.{Adapter, PolicyRequestConfig, wrap_adapter}
use iot_miniservers.Http.Requests.{RequestConfig, HttpError, Wire}

-- What an instance is made of. `authorize` is `applyTransport`; `describe` is what a failure looks like to the handler of
-- responses, for the configuration that the adapter was called with.
pub record Instance (W Q E C A : Type 0) : Type 0 where
  pub env : Surroundings W E
  pub attempt_policy : Call W E A → Call W E A
  pub retry : RetryConfig
  pub default_adapter : Adapter W Q E A
  pub authorize : C → Q → Result Text Q
  pub describe :
      Failure E
      → RequestConfig (PolicyRequestConfig W Q E A)
      → HttpError (PolicyRequestConfig W Q E A)
  pub credentials_of : W → Result (HttpError (PolicyRequestConfig W Q E A)) C × W
  pub invalidate : W → W

module _ {W Q E C A : Type 0} (i : Instance W Q E C A) where
  abbrev pub Config : Type 0
  Config = RequestConfig (PolicyRequestConfig W Q E A)

  abbrev pub described :
      Config → Result (Failure E) A × W → Result (HttpError (PolicyRequestConfig W Q E A)) A × W
  described config (ok a, w) = (ok a, w)
  described config (err f, w) = (err (i.describe f config), w)

  abbrev pub adapter_of : PolicyRequestConfig W Q E A → Adapter W Q E A
  adapter_of config = or_else config.adapter i.default_adapter

  -- The request interceptors and the adapter: the configuration that is wrapped is the one that is sent.
  abbrev pub dispatch :
      Config → Result Text Q → W → Result (HttpError (PolicyRequestConfig W Q E A)) A × W
  dispatch config (err m) w = (err (record { status = none; config = none; reason = m }), w)
  dispatch config (ok q) w =
      let wrapped =
        record (wrap_adapter i.env i.attempt_policy i.retry i.default_adapter config.request) {
          request = q;
        } in
      described (record config { request = wrapped }) (adapter_of wrapped q w)

  unfoldable pub wire_of : Wire W (PolicyRequestConfig W Q E A) C A
  wire_of = record {
    credentials_of = i.credentials_of;
    invalidate_all = i.invalidate;
    send = λ config c w. dispatch config (i.authorize c config.request.request) w;
  }
