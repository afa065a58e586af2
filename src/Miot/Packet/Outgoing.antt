-- ===== src/Miot/Packet/Outgoing.antt =====
-- packages/miot-device/src/packet/OutgoingPacket.ts.
use iot_miniservers.Prelude.{ℕ, ◌+◌, Option, none, some, [], ◌∷◌, ◌++◌, Text, text, length, text_eq}
use iot_miniservers.Prelude.Dict
use iot_miniservers.Prelude.Dict.{Dict}
use iot_miniservers.Prelude.Result.{Result, ok, err, ◌>>=◌}
use iot_miniservers.Miot.Packet.{
  Bytes, Crypto, TokenInput, Keys, BasePacket, put, write_u16, write_u32, base_packet, digest_of,
}

pub record OutgoingPacketConfig (J : Type 0) : Type 0 where
  pub token : Option TokenInput
  pub payload : Option (Dict Text J)
  pub device_id : Option ℕ
  pub stamp : Option ℕ

pub record OutgoingPacket (J : Type 0) : Type 0 where
  pub base : BasePacket
  pub payload : Option (Dict Text J)

abbrev pub write_given : Option ℕ → ℕ → Bytes → Result Text Bytes
write_given none offset header = ok header
write_given (some n) offset header = write_u32 n offset header

module _ {J : Type 0} where
  -- `{ ...target, ...entries }`
  abbrev pub spread : Dict Text J → Dict Text J → Dict Text J
  spread [] target = target
  spread ((k, v) ∷ entries) target = spread entries (Dict.insert k v target)

  module _ (lib : Crypto J) where
    abbrev pub with_id : ℕ → Option (Dict Text J) → Option (Dict Text J)
    with_id now none = none
    with_id now (some payload) = some (spread payload ((text "id", lib.number now) ∷ []))

    -- The constructor: `now` is the time in whole seconds.
    unfoldable pub outgoing_packet :
        ℕ → Option (OutgoingPacketConfig J) → Result Text (OutgoingPacket J)
    unfolding base_packet write_u32
    outgoing_packet now none =
        base_packet lib none >>= λ base. ok (record { base = base; payload = none })
    outgoing_packet now (some config) = base_packet lib config.token >>= λ base.
        write_given config.device_id 8 base.header >>= λ addressed.
        write_given config.stamp 12 addressed >>= λ stamped.
        ok
          (record { base = record base { header = stamped }; payload = with_id now config.payload })

    unfoldable pub build_command_packet : Bytes → Option Keys → Dict Text J → Result Text Bytes
    unfolding write_u16 write_u32
    build_command_packet header none payload =
        err (text "Token is required to send command packets")
    build_command_packet header (some keys) payload =
        let encrypted =
          lib.encrypt keys.token_key keys.token_iv (lib.to_utf8 (lib.stringify payload)) in
        write_u32 0 4 header >>= λ plain. write_u16 (32 + length encrypted) 2 plain >>= λ sized.
        ok (put 16 (digest_of lib sized keys.token encrypted) sized ++ encrypted)

    -- The getter `raw`.
    unfoldable pub raw : OutgoingPacket J → Result Text Bytes
    unfolding build_command_packet write_u16
    raw p = elim p.payload [
      | none ↦ write_u16 32 2 p.base.header
      | some payload ↦ build_command_packet p.base.header p.base.keys payload
    ]
