-- ===== src/Miot/Packet/Incoming.antt =====
-- packages/miot-device/src/packet/IncomingPacket.ts.
use iot_miniservers.Prelude.{
  ℕ, not, Option, none, some, [], ◌∷◌, ◌++◌, Text, text, length, take, drop, ltb, nat_eqb, ◌==◌,
  text_eq, strip_trailing, if◌then◌else◌,
}
use iot_miniservers.Prelude.Dict.{Dict}
use iot_miniservers.Prelude.Result.{Result, ok, err, ◌>>=◌}
use iot_miniservers.Miot.Packet.{
  Bytes, Crypto, TokenInput, Keys, BasePacket, base_packet, digest_of, read_u16, read_u32,
}

pub record HelloInfo : Type 0 where
  pub device_id : ℕ
  pub stamp : ℕ
  pub token : Bytes

-- `content` is the field `data`.
pub record IncomingPacket : Type 0 where
  pub base : BasePacket
  pub content : Option Bytes

module _ {J : Type 0} (lib : Crypto J) where
  -- `IncomingPacket.parseHello`
  unfoldable pub parse_hello : Bytes → Result Text HelloInfo
  parse_hello msg =
      if ltb (length msg) 32
      then err (text "Response too short: " ++ (lib.to_decimal (length msg) ++ text " bytes"))
      else if not (nat_eqb (read_u16 0 msg) 8497)
      then err (text "Invalid magic number: 0x" ++ lib.to_hex (read_u16 0 msg))
      else ok (record {
        device_id = read_u32 8 msg;
        stamp = read_u32 12 msg;
        token = take 16 (drop 16 msg);
      })

  abbrev pub decrypted : Keys → Bytes → Result Text (Option Bytes)
  decrypted keys encrypted =
      lib.decrypt keys.token_key keys.token_iv encrypted >>= λ plain. ok (some plain)

  abbrev pub opened : Option Keys → Bytes → Bytes → Result Text (Option Bytes)
  opened keys header [] = ok none
  opened none header (b ∷ encrypted) = err (text "Token is required to decrypt response packets")
  opened (some keys) header (b ∷ encrypted) =
      if take 16 (drop 16 header) == digest_of lib header keys.token (b ∷ encrypted)
      then decrypted keys (b ∷ encrypted)
      else err (text "Invalid packet checksum — token may be wrong")

  unfoldable pub parse_and_decrypt : Option Keys → Bytes → Result Text (Bytes × Option Bytes)
  parse_and_decrypt keys msg =
      if ltb (length msg) 32
      then err (text "Packet too short: " ++ (lib.to_decimal (length msg) ++ text " bytes"))
      else (opened keys (take 32 msg) (drop 32 msg) >>= λ content. ok (take 32 msg, content))

  -- The constructor.
  unfoldable pub incoming_packet : Bytes → TokenInput → Result Text IncomingPacket
  unfolding base_packet parse_and_decrypt
  incoming_packet msg token = base_packet lib (some token) >>= λ base.
      parse_and_decrypt base.keys msg >>= λ (header, content).
      ok (record { base = record base { header = header }; content = content })

  -- The getter `json`.
  unfoldable pub json : IncomingPacket → Result Text (Option (Dict Text J))
  json p = elim p.content [
    | none ↦ ok none
    | some bytes ↦ lib.parse (strip_trailing 0 (lib.of_utf8 bytes)) >>= λ value. ok (some value)
  ]
