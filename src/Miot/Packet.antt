-- ===== src/Miot/Packet.antt =====
-- packages/miot-device/src/packet: BasePacket.ts, OutgoingPacket.ts, IncomingPacket.ts. A buffer is
-- the list of its bytes. The functions of `crypto`, `Buffer` and `JSON` that the packets call are
-- parameters; J is the type of JSON values, and a JSON object lists its entries.
pub mod Outgoing
pub mod Incoming
pub mod RoundTrip
use iot_miniservers.Prelude.{
  ℕ, ◌+◌, ◌*◌, ◌/◌, ◌%◌, ◌^◌, Bool, true, false, not, Option, none, some, List, [], ◌∷◌, ◌++◌, Text,
  text, length, take, drop, replicate, if◌then◌else◌, ltb, nat_eqb, ◌==◌, text_eq,
}
use iot_miniservers.Prelude.Dict
use iot_miniservers.Prelude.Dict.{Dict}
use iot_miniservers.Prelude.Result.{Result, ok, err}
use iot_miniservers.Miot.Transport.{Hello}

abbrev pub Bytes : Type 0
Bytes = List ℕ

pub record Crypto (J : Type 0) : Type 0 where
  pub md5 : Bytes → Bytes
  pub encrypt : Bytes → Bytes → Bytes → Bytes
  pub decrypt : Bytes → Bytes → Bytes → Result Text Bytes
  pub from_hex : Text → Bytes
  pub to_utf8 : Text → Bytes
  pub of_utf8 : Bytes → Text
  pub to_hex : ℕ → Text
  pub to_decimal : ℕ → Text
  pub number : ℕ → J
  pub stringify : Dict Text J → Text
  pub parse : Text → Result Text (Dict Text J)

pub data TokenInput : Type 0 where
  hex_token : Text → TokenInput
  raw_token : Bytes → TokenInput

-- `HEADER_SIZE` and `MAGIC` are 32 and 0x2131.
pub record Keys : Type 0 where
  pub token : Bytes
  pub token_key : Bytes
  pub token_iv : Bytes

pub record BasePacket : Type 0 where
  pub header : Bytes
  pub keys : Option Keys

abbrev pub u16 : ℕ → Bytes
u16 n = (n / 256) % 256 ∷ n % 256 ∷ []

abbrev pub u32 : ℕ → Bytes
u32 n = (n / 16777216) % 256 ∷ (n / 65536) % 256 ∷ (n / 256) % 256 ∷ n % 256 ∷ []

-- `buffer.set(bytes, offset)`, of bytes that fit.
abbrev pub put : ℕ → Bytes → Bytes → Bytes
put offset bytes buffer = take offset buffer ++ (bytes ++ drop (offset + length bytes) buffer)

abbrev pub range_error : Text
range_error = text "ERR_OUT_OF_RANGE"

-- `buffer.writeUInt16BE(n, offset)` and `writeUInt32BE`: they throw for a number out of range.
unfoldable pub write_u16 : ℕ → ℕ → Bytes → Result Text Bytes
write_u16 n offset buffer = if ltb n 65536 then ok (put offset (u16 n) buffer) else err range_error

unfoldable pub write_u32 : ℕ → ℕ → Bytes → Result Text Bytes
write_u32 n offset buffer =
    if ltb n 4294967296 then ok (put offset (u32 n) buffer) else err range_error

abbrev pub number_of : Bytes → ℕ → ℕ
number_of [] acc = acc
number_of (b ∷ bytes) acc = number_of bytes (acc * 256 + b)

-- `buffer.readUInt16BE(offset)` and `readUInt32BE`, inside the buffer.
abbrev pub read_u16 : ℕ → Bytes → ℕ
read_u16 offset buffer = number_of (take 2 (drop offset buffer)) 0

abbrev pub read_u32 : ℕ → Bytes → ℕ
read_u32 offset buffer = number_of (take 4 (drop offset buffer)) 0

abbrev pub blank_header : Bytes
blank_header = 33 ∷ 49 ∷ 0 ∷ 0 ∷ replicate 28 255

unfoldable pub checksum : BasePacket → Bytes
checksum p = take 16 (drop 16 p.header)

unfoldable pub packet_device_id : BasePacket → ℕ
packet_device_id p = read_u32 8 p.header

unfoldable pub packet_stamp : BasePacket → ℕ
packet_stamp p = read_u32 12 p.header

module _ {J : Type 0} (lib : Crypto J) where
  abbrev pub token_bytes : TokenInput → Bytes
  token_bytes (hex_token s) = lib.from_hex s
  token_bytes (raw_token b) = b

  abbrev pub keys_of : Bytes → Keys
  keys_of token = record {
    token = token;
    token_key = lib.md5 token;
    token_iv = lib.md5 (lib.md5 token ++ token);
  }

  -- The constructor of `BasePacket`.
  unfoldable pub base_packet : Option TokenInput → Result Text BasePacket
  base_packet none = ok (record { header = blank_header; keys = none })
  base_packet (some input) =
      let token = token_bytes input in
      if nat_eqb (length token) 16
      then ok (record { header = blank_header; keys = some (keys_of token) })
      else err (text "Token must be 16 bytes (128-bit), got " ++ lib.to_decimal (length token))

  -- The digest over the first half of a header, the token and the encrypted payload.
  abbrev pub digest_of : Bytes → Bytes → Bytes → Bytes
  digest_of header token encrypted = lib.md5 (take 16 header ++ (token ++ encrypted))
