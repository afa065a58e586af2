-- ===== src/Miot/Transport.antt =====
-- packages/miot-device/src/MiotTransport.ts: the life of a UDP exchange as the events of its socket
-- and timer, and the commands over it. Encoding and decoding of packets, and the network itself,
-- are parameters here. A property's number is a whole number.
pub mod Commands
pub mod Settling
pub mod Stamps
use iot_miniservers.Prelude.{
  ℕ, ◌+◌, ◌-◌, Bool, true, false, not, Option, none, some, List, [], ◌∷◌, ◌++◌, Text, text, ltb,
  length, head?, map, if◌then◌else◌, ◌==◌, nat_eq,
}
use iot_miniservers.Prelude.Int.{ℤ, pos, int_eq}
use iot_miniservers.Prelude.Result.{Result, ok, err, ◌>>=◌}
use iot_miniservers.Miot.Error.{
  MiotError, MiotErrorKind, timeout, device_error, transport_error, MiotMethod, handshake,
  get_properties, set_properties, action, Thrown, miot_error,
}

pub data Value : Type 0 where
  str : Text → Value
  num : ℤ → Value

pub record PropertyResult : Type 0 where
  pub siid : ℕ
  pub piid : ℕ
  pub value : Option Value
  pub code : ℤ

pub record DeviceFault : Type 0 where
  pub code : ℤ
  pub message : Text

pub record MiotResponse : Type 0 where
  pub id : ℕ
  pub result : Option (List PropertyResult)
  pub error : Option DeviceFault

pub record PropertyId : Type 0 where
  pub siid : ℕ
  pub piid : ℕ

pub data Arguments : Type 0 where
  no_arguments : Arguments
  array : List Value → Arguments
  scalar : Value → Arguments

pub data Request : Type 0 where
  get_request : PropertyId → Request
  set_request : PropertyId → Value → Request
  action_request : ℕ → ℕ → List Value → Request

unfoldable pub method_of : Request → MiotMethod
method_of (get_request p) = get_properties
method_of (set_request p v) = set_properties
method_of (action_request siid aiid args) = action

unfoldable pub failure : Text → MiotErrorKind → MiotMethod → Option ℤ → Thrown
failure message kind method code = miot_error (record {
  message = message;
  kind = kind;
  method = method;
  code = code;
  stamp_refreshed = false;
})

-- `transportError(method, cause)`, of a cause with its message.
unfoldable pub transport_failure : MiotMethod → Text → Thrown
unfolding failure
transport_failure method message = failure message transport_error method none

-- What the socket and the timer of one exchange may bring.
pub data Event : Type 0 where
  timed_out : Event
  message : List ℕ → Event
  socket_error : Text → Event
  send_failed : Text → Event

-- `closed` counts the calls of `socket.close()`; `outcome` is what the promise settled with.
pub record Exchange (A : Type 0) : Type 0 where
  pub settled : Bool
  pub armed : Bool
  pub closed : ℕ
  pub outcome : Option (Result Thrown A)

module _ {A : Type 0} where
  unfoldable pub start : Exchange A
  start = record { settled = false; armed = true; closed = 0; outcome = none }

  -- `done(err)`
  unfoldable pub done : Thrown → Exchange A → Exchange A
  done e x =
      if x.settled
      then x
      else record x { settled = true; closed = x.closed + 1; outcome = some (err e) }

  -- The promise of an exchange: `accept` reads a message, `late` is the error of the timer.
  module _ (method : MiotMethod) (late : Thrown) (accept : List ℕ → Result Thrown A) where
    unfoldable pub step : Event → Exchange A → Exchange A
    unfolding done transport_failure
    step timed_out x = if x.armed then done late (record x { armed = false }) else x
    step (message bytes) x = if x.settled then record x { armed = false } else record x {
      settled = true;
      armed = false;
      closed = x.closed + 1;
      outcome = some (accept bytes);
    }
    step (socket_error m) x = done (transport_failure method m) (record x { armed = false })
    step (send_failed m) x = done (transport_failure method m) (record x { armed = false })

    unfoldable pub run : List Event → Exchange A → Exchange A
    run [] x = x
    run (e ∷ es) x = run es (step e x)

pub record Hello : Type 0 where
  pub device_id : ℕ
  pub stamp : ℕ

-- `IncomingPacket.parseHello`, or the message of what it throws.
unfoldable pub accept_hello : (List ℕ → Result Text Hello) → List ℕ → Result Thrown Hello
unfolding transport_failure
accept_hello parse bytes = elim (parse bytes) [
  | ok h ↦ ok h
  | err m ↦ err (transport_failure handshake m)
]

unfoldable pub handshake_step :
    Text → (List ℕ → Result Text Hello) → Event → Exchange Hello → Exchange Hello
unfolding step accept_hello failure
handshake_step place parse =
    step handshake
      (failure (text "Handshake timeout: no response from " ++ place) timeout handshake none)
      (accept_hello parse)

-- The answer of a device, read: `show` formats a number.
unfoldable pub read_response :
    (ℤ → Text) → MiotMethod → Option MiotResponse → Result Thrown MiotResponse
unfolding failure
read_response show method none =
    err (failure (text "Empty response from device") transport_error method none)
read_response show method (some json) = elim json.error [
  | none ↦ ok json
  | some fault ↦ err (
      failure (text "Device error " ++ (show fault.code ++ (text ": " ++ fault.message)))
        device_error method (some fault.code))
]

unfoldable pub accept_response :
    (ℤ → Text)
    → MiotMethod
    → (List ℕ → Result Text (Option MiotResponse))
    → List ℕ
    → Result Thrown MiotResponse
unfolding read_response transport_failure
accept_response show method parse bytes = elim (parse bytes) [
  | ok json ↦ read_response show method json
  | err m ↦ err (transport_failure method m)
]

unfoldable pub command_step :
    Text
    → (ℤ → Text)
    → MiotMethod
    → (List ℕ → Result Text (Option MiotResponse))
    → Event
    → Exchange MiotResponse
    → Exchange MiotResponse
unfolding step accept_response failure
command_step place show method parse =
    step method (failure (text "Command timeout: no response from " ++ place) timeout method none)
      (accept_response show method parse)
