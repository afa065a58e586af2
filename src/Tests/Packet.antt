-- ===== src/Tests/Packet.antt =====
-- packages/miot-device/src/packet with small stand-ins for the libraries: a JSON object is written
-- as its characters, each after a 2, and its values, each after a 1.
use iot_miniservers.Prelude.{
  ℕ, ◌≡◌, refl, ap, some, [], ◌∷◌, ◌++◌, Text, text, arith, length-append, drop, replicate,
  if◌then◌else◌, nat_eqb,
}
use iot_miniservers.Prelude.Dict
use iot_miniservers.Prelude.Dict.{Dict}
use iot_miniservers.Prelude.Result.{ok, err, ◌>>=◌}
use iot_miniservers.Miot.Packet.{Bytes, Crypto, raw_token, packet_device_id, packet_stamp}
use iot_miniservers.Miot.Packet.Outgoing.{outgoing_packet, raw, spread}
use iot_miniservers.Miot.Packet.Incoming.{IncomingPacket, incoming_packet, json, parse_hello}
use iot_miniservers.Miot.Packet.RoundTrip.{IsReliable, incoming_packet-raw}

abbrev write_key : Text → Text → Text
write_key [] after = after
write_key (c ∷ key) after = 2 ∷ c ∷ write_key key after

abbrev write_object : Dict Text ℕ → Text
write_object [] = 125 ∷ []
write_object ((key, v) ∷ object) = write_key key (1 ∷ v ∷ write_object object)

abbrev push_char : ℕ → Dict Text ℕ → Dict Text ℕ
push_char c [] = []
push_char c ((key, v) ∷ object) = (c ∷ key, v) ∷ object

abbrev read_object : Text → Dict Text ℕ
read_object [] = []
read_object (mark ∷ []) = []
read_object (mark ∷ c ∷ rest) =
    let object = read_object rest in if nat_eqb mark 1 then ([], c) ∷ object else push_char c object

read_object-write_key :
    (key after : Text) (v : ℕ)
    → read_object (write_key key (1 ∷ v ∷ after)) ≡ (key, v) ∷ read_object after
read_object-write_key [] after v = refl
read_object-write_key (c ∷ key) after v = rw (read_object-write_key key after v) refl

read_object-write_object : (object : Dict Text ℕ) → read_object (write_object object) ≡ object
read_object-write_object [] = refl
read_object-write_object ((key, v) ∷ object) =
    rw (read_object-write_key key (write_object object) v, read_object-write_object object) refl

write_key-brace :
    (key front : Text) → (f : Text) × (write_key key (front ++ 125 ∷ []) ≡ f ++ 125 ∷ [])
write_key-brace [] front = (front, refl)
write_key-brace (c ∷ key) front =
    let (f, e) = write_key-brace key front in (2 ∷ c ∷ f, ap (λ t. 2 ∷ c ∷ t) e)

write_object-brace : (object : Dict Text ℕ) → (f : Text) × (write_object object ≡ f ++ 125 ∷ [])
write_object-brace [] = ([], refl)
write_object-brace ((key, v) ∷ object) =
    let (f, e) = write_object-brace object in rw e (write_key-brace key (1 ∷ v ∷ f))

abbrev toy : Crypto ℕ
toy = record {
  md5 = λ b. replicate 16 9;
  encrypt = λ k i b. replicate 16 7 ++ b;
  decrypt = λ k i b. ok (drop 16 b);
  from_hex = λ t. t;
  to_utf8 = λ t. t;
  of_utf8 = λ b. b;
  to_hex = λ n. n ∷ [];
  to_decimal = λ n. n ∷ [];
  number = λ n. n;
  stringify = write_object;
  parse = λ t. ok (read_object t);
}

toy-IsReliable : IsReliable toy
toy-IsReliable = record {
  md5_length = λ b. refl;
  decrypt_encrypt = λ k i b. refl;
  encrypt_block = λ k i b. omega (arith, length-append (replicate 16 7) b);
  of_utf8_to_utf8 = λ t. refl;
  parse_stringify = λ p. ap ok (read_object-write_object p);
  stringify_brace = write_object-brace;
}

abbrev token : Bytes
token = replicate 16 1

abbrev command : Dict Text ℕ
command = (text "method", 5) ∷ []

incoming_packet-raw_example :
    (bytes : Bytes) × (packet : IncomingPacket) × ((outgoing_packet toy 60 (
          some (record {
            token = some (raw_token token);
            payload = some command;
            device_id = some 305419896;
            stamp = some 77;
          }))
        >>= raw toy)
      ≡ ok bytes)
    × (incoming_packet toy bytes (raw_token token) ≡ ok packet)
    × (packet_device_id packet.base ≡ 305419896)
    × (packet_stamp packet.base ≡ 77)
    × (json toy packet ≡ ok (some (spread command ((text "id", 60) ∷ []))))
unfolding Dict.insert
incoming_packet-raw_example =
    incoming_packet-raw toy toy-IsReliable 60 305419896 77 (raw_token token) command refl
      (omega arith) (omega arith) (omega arith)

short_hello :
    parse_hello toy (33 ∷ 49 ∷ []) ≡ err (text "Response too short: " ++ (2 ∷ text " bytes"))
unfolding parse_hello
short_hello = refl
