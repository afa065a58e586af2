-- ===== src/Http/Requests.antt =====
-- packages/http-provider/src/HttpProviderFactory.ts: `attachAuthInterceptor` and the request that it replays. The
-- getting of credentials, `invalidate` and the sending of a request with credentials on it (apply_transport and the
-- adapter) act on the world W and are parameters. As axios has it, an error of a request interceptor reaches the handler
-- of responses too. R is what a request asks for; `sent` lists the requests handed to `send`.
use iot_miniservers.Prelude.{
  ℕ, zero, suc, Bool, true, false, Option, none, some, List, [], ◌∷◌, ◌++◌, Text, nat_eqb,
  if◌then◌else◌,
}
use iot_miniservers.Prelude.Result.{Result, ok, err}

-- `retried` is the mark `_retried`.
pub record RequestConfig (R : Type 0) : Type 0 where
  pub request : R
  pub retried : Bool

-- What is thrown: the status of the response and the configuration of the request, where they are there.
pub record HttpError (R : Type 0) : Type 0 where
  pub status : Option ℕ
  pub config : Option (RequestConfig R)
  pub reason : Text

pub record Wire (W R C A : Type 0) : Type 0 where
  pub credentials_of : W → Result (HttpError R) C × W
  pub invalidate_all : W → W
  pub send : RequestConfig R → C → W → Result (HttpError R) A × W

pub record Sent (W R A : Type 0) : Type 0 where
  pub result : Result (HttpError R) A
  pub world : W
  pub sent : List R

abbrev pub is_unauthorized : Option ℕ → Bool
is_unauthorized none = false
is_unauthorized (some status) = nat_eqb status 401

abbrev pub unmarked : {R : Type 0} → Option (RequestConfig R) → Option (RequestConfig R)
unmarked none = none
unmarked (some config) = if config.retried then none else some config

-- The configuration that an error has the handler send again.
unfoldable pub replayed : {R : Type 0} → HttpError R → Option (RequestConfig R)
replayed e = if is_unauthorized e.status then unmarked e.config else none

abbrev pub marked : {R : Type 0} → RequestConfig R → RequestConfig R
marked config = record config { retried = true }

-- A run behind requests that were sent before.
abbrev pub prepended : {W R A : Type 0} → List R → Option (Sent W R A) → Option (Sent W R A)
prepended sent none = none
prepended sent (some o) = some (record o { sent = sent ++ o.sent })

module _ {W R C A : Type 0} (wire : Wire W R C A) where
  -- The handler of responses; `again` is `instance.request`.
  abbrev pub on_error :
      (RequestConfig R → W → Option (Sent W R A))
      → HttpError R
      → Option (RequestConfig R)
      → W
      → List R
      → Option (Sent W R A)
  on_error again e none w sent = some (record { result = err e; world = w; sent = sent })
  on_error again e (some config) w sent =
      prepended sent (again (marked config) (wire.invalidate_all w))

  abbrev pub on_response :
      (RequestConfig R → W → Option (Sent W R A))
      → List R
      → Result (HttpError R) A × W
      → Option (Sent W R A)
  on_response again sent (ok a, w) = some (record { result = ok a; world = w; sent = sent })
  on_response again sent (err e, w) = on_error again e (replayed e) w sent

  abbrev pub with_credentials :
      (RequestConfig R → W → Option (Sent W R A))
      → RequestConfig R
      → Result (HttpError R) C × W
      → Option (Sent W R A)
  with_credentials again config (ok c, w) =
      on_response again (config.request ∷ []) (wire.send config c w)
  with_credentials again config (err e, w) = on_error again e (replayed e) w []

  -- A request of the instance, with fuel for each time that it is replayed.
  unfoldable pub perform_request : ℕ → RequestConfig R → W → Option (Sent W R A)
  perform_request zero config w = none
  perform_request (suc fuel) config w =
      with_credentials (perform_request fuel) config (wire.credentials_of w)
