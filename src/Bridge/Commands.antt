-- ===== src/Bridge/Commands.antt =====
-- apis/miot-bridge-api/src/services/DeviceCommandService.ts. The storage, the mapper of specs, the
-- registry's client of a device and the clock are parameters; V is the type of values with its
-- `===`. Spans and logs are left out, apart from what is warned of once; the counters of local
-- rejections and of rejected properties come back as lists.
pub mod Authority
pub mod Execute
pub mod Properties
pub mod Reads
use iot_miniservers.Prelude.{
  ℕ, Bool, true, false, not, ◌&&◌, ◌||◌, Option, none, some, List, [], ◌∷◌, ◌++◌, Text, any, find,
  map, filter, nat_eqb, or_else, if◌then◌else◌, Eq, ◌==◌, text_eq, nat_eq,
}
use iot_miniservers.Prelude.Int.{ℤ, pos, negsuc, int_eq}
use iot_miniservers.Prelude.Dict
use iot_miniservers.Prelude.Dict.{Dict}
use iot_miniservers.Prelude.Result.{Result, ok, err}
use iot_miniservers.Miot.Error.{Thrown, MiotMethod, get_properties, set_properties, action}
use iot_miniservers.Bridge.Poller.{PropertyChangeEvent}

pub data PropertyAccess : Type 0 where
  read write notify : PropertyAccess

abbrev pub access_eqb : PropertyAccess → PropertyAccess → Bool
access_eqb read read = true
access_eqb write write = true
access_eqb notify notify = true
access_eqb _ _ = false

pub data PropertySource : Type 0 where
  from_spec from_override : PropertySource

pub record PropertyValue (V : Type 0) : Type 0 where
  pub value : V
  pub description : Text

pub record MiotProperty (V : Type 0) : Type 0 where
  pub siid : ℕ
  pub piid : ℕ
  pub access : List PropertyAccess
  pub values : List (PropertyValue V)
  pub source : PropertySource

pub record MiotAction : Type 0 where
  pub siid : ℕ
  pub aiid : ℕ
  pub input : Option (List Text)

pub record SimplifiedMiotSpec (V : Type 0) : Type 0 where
  pub name : Text
  pub type_urn : Text
  pub properties : Dict Text (MiotProperty V)
  pub actions : Dict Text MiotAction

-- An operation comes from the request: it may be none of the three.
pub data Operation : Type 0 where
  get_property : Operation
  set_property : Operation
  run_action : Operation
  other_operation : Text → Operation

pub record DeviceCommandRequest (V : Type 0) : Type 0 where
  pub device_id : ℤ
  pub command : Text
  pub operation : Operation
  pub value : Option V

pub record RawCommandRequest (V : Type 0) : Type 0 where
  pub device_id : ℤ
  pub operation : Operation
  pub siid : ℕ
  pub piid : Option ℕ
  pub aiid : Option ℕ
  pub value : Option V

-- The fields of a stored device that the service reads itself.
pub record Device : Type 0 where
  pub id : Text
  pub device_id : ℕ
  pub model : Text

pub data ResolvedCommand (V : Type 0) : Type 0 where
  getting : MiotProperty V → ResolvedCommand V
  setting : MiotProperty V → ResolvedCommand V
  acting : MiotAction → ResolvedCommand V

pub data CommandError : Type 0 where
  device_not_found : CommandError
  property_not_found action_not_found : Text → CommandError
  not_readable not_writable value_not_allowed : Text → CommandError
  iid_required : Operation → CommandError
  unsupported : Operation → CommandError
  lookup_failed : Text → CommandError
  device_failed : Thrown → CommandError

pub record DeviceReading (V : Type 0) : Type 0 where
  pub siid : ℕ
  pub piid : ℕ
  pub value : Option V
  pub code : ℤ

pub record KeyedPropertyResult (V : Type 0) : Type 0 where
  pub key : Text
  pub siid : ℕ
  pub piid : ℕ
  pub source : PropertySource
  pub value : Option V
  pub code : ℤ

-- The client of one device, acting on the world.
pub record Client (V W : Type 0) : Type 0 where
  pub get : ℕ → ℕ → W → Result Thrown (Option V) × W
  pub set : ℕ → ℕ → Option V → W → Result Thrown (Unit {0}) × W
  pub act : ℕ → ℕ → Option V → W → Result Thrown (Unit {0}) × W
  pub get_each : List (ℕ × ℕ) → W → Result Thrown (List (DeviceReading V)) × W

pub record Services (V W : Type 0) : Type 0 where
  pub by_id : Text → Result Text (Option Device)
  pub by_device_id : ℤ → Result Text (Option Device)
  pub spec_of : Device → Result Text (SimplifiedMiotSpec V)
  pub client : Device → Client V W
  pub now : W → ℕ

-- What a command comes to: `value` is the value of the response.
pub record Executed (V W : Type 0) : Type 0 where
  pub result : Result CommandError (Option V)
  pub world : W
  pub events : List (PropertyChangeEvent V)
  pub rejections : List MiotMethod

unfoldable pub miot_method_of : Operation → MiotMethod
miot_method_of set_property = set_properties
miot_method_of run_action = action
miot_method_of _ = get_properties

abbrev pub grants : {V : Type 0} → MiotProperty V → PropertyAccess → Bool
grants p a = any (λ b. access_eqb b a) p.access

module _ {V : Type 0} ⦃e : Eq V⦄ where
  abbrev pub allows : MiotProperty V → Option V → Bool
  allows p none = false
  allows p (some v) = any (λ allowed. allowed.value == v) p.values

  unfoldable pub resolve_get :
      Text → Option (MiotProperty V) → Result CommandError (ResolvedCommand V)
  resolve_get command none = err (property_not_found command)
  resolve_get command (some p) =
      if not (grants p read) && not (grants p notify)
      then err (not_readable command)
      else ok (getting p)

  unfoldable pub resolve_set :
      Text → Option V → Option (MiotProperty V) → Result CommandError (ResolvedCommand V)
  resolve_set command value none = err (property_not_found command)
  resolve_set command value (some p) =
      if not (grants p write)
      then err (not_writable command)
      else if allows p value
      then ok (setting p)
      else err (value_not_allowed command)

  unfoldable pub resolve_action : Text → Option MiotAction → Result CommandError (ResolvedCommand V)
  resolve_action command none = err (action_not_found command)
  resolve_action command (some a) = ok (acting a)

  unfoldable pub resolve_operation :
      Operation
      → DeviceCommandRequest V
      → SimplifiedMiotSpec V
      → Result CommandError (ResolvedCommand V)
  unfolding resolve_get resolve_set resolve_action
  resolve_operation get_property request spec =
      resolve_get request.command (Dict.get request.command spec.properties)
  resolve_operation set_property request spec =
      resolve_set request.command request.value (Dict.get request.command spec.properties)
  resolve_operation run_action request spec =
      resolve_action request.command (Dict.get request.command spec.actions)
  resolve_operation (other_operation name) request spec = err (unsupported (other_operation name))

  unfoldable pub resolve_command :
      DeviceCommandRequest V → SimplifiedMiotSpec V → Result CommandError (ResolvedCommand V)
  unfolding resolve_operation
  resolve_command request spec = resolve_operation request.operation request spec
