-- ===== src/Miot/Packet/RoundTrip.antt =====
-- A command packet is read back as it was written, by whoever has the token.
use iot_miniservers.Prelude.{
  ℕ, ◌+◌, ◌≤◌, ◌<◌, ◌≡◌, refl, sym, ap, ◌∙◌, true, false, Option, some, List, [], ◌∷◌, ◌++◌,
  append-nil, Text, text, arith, length, length-append, take, drop, replicate, take-append,
  drop-append, ltb, text_eq, strip_trailing,
}
use iot_miniservers.Prelude.Dict.{Dict, eq_self}
use iot_miniservers.Prelude.Result.{ok, ◌>>=◌}
use iot_miniservers.Miot.Packet.{
  Bytes, Crypto, TokenInput, Keys, u16, u32, put, write_u16, write_u32, blank_header, base_packet,
  keys_of, token_bytes, digest_of, packet_device_id, packet_stamp, read_u32,
}
use iot_miniservers.Miot.Packet.Outgoing.{spread, outgoing_packet, build_command_packet, raw}
use iot_miniservers.Miot.Packet.Incoming.{
  IncomingPacket, incoming_packet, parse_and_decrypt, opened, json,
}

-- What the packets rely on: digests of 16 bytes, a cipher that is read back under the same keys and
-- pads to at least one block, a text encoding that is read back, and JSON objects that are.
pub record IsReliable {J : Type 0} (lib : Crypto J) : Type 0 where
  pub md5_length : (b : Bytes) → length (lib.md5 b) ≡ 16
  pub decrypt_encrypt : (k i b : Bytes) → lib.decrypt k i (lib.encrypt k i b) ≡ ok b
  pub encrypt_block : (k i b : Bytes) → 16 ≤ length (lib.encrypt k i b)
  pub of_utf8_to_utf8 : (t : Text) → lib.of_utf8 (lib.to_utf8 t) ≡ t
  pub parse_stringify : (p : Dict Text J) → lib.parse (lib.stringify p) ≡ ok p
  pub stringify_brace : (p : Dict Text J) → (front : Text) × (lib.stringify p ≡ front ++ 125 ∷ [])

take_exact : {A : Type 0} (n : ℕ) (xs ys : List A) → length xs ≡ n → take n (xs ++ ys) ≡ xs
take_exact n xs ys h = rw (← h) (take-append xs ys)

drop_exact : {A : Type 0} (n : ℕ) (xs ys : List A) → length xs ≡ n → drop n (xs ++ ys) ≡ ys
drop_exact n xs ys h = rw (← h) (drop-append xs ys)

take_whole : {A : Type 0} (n : ℕ) (xs : List A) → length xs ≡ n → take n xs ≡ xs
take_whole n xs h = ap (λ t. take n t) (sym (append-nil xs)) ∙ take_exact n xs [] h

strip_trailing-brace : (front : Text) → strip_trailing 0 (front ++ 125 ∷ []) ≡ front ++ 125 ∷ []
strip_trailing-brace [] = refl
strip_trailing-brace (c ∷ []) = refl
strip_trailing-brace (c ∷ d ∷ front) = rw (strip_trailing-brace (d ∷ front)) refl

-- The first half of the header of a command.
abbrev preamble : ℕ → ℕ → ℕ → Bytes
preamble size device_id stamp =
    33 ∷ 49 ∷ (u16 size ++ (0 ∷ 0 ∷ 0 ∷ 0 ∷ (u32 device_id ++ u32 stamp)))

u32-read : (n : ℕ) (after : Bytes) → n < 4294967296 → read_u32 0 (u32 n ++ after) ≡ n
u32-read n after h = omega (arith, h)

module _ {J : Type 0} (lib : Crypto J) (reliable : IsReliable lib) where
  put-digest :
      (size d s : ℕ) (b : Bytes)
      → put 16 (lib.md5 b) (preamble size d s ++ replicate 16 255) ≡ preamble size d s ++ lib.md5 b
  put-digest size d s b =
      rw (reliable.md5_length b) (ap (λ x. preamble size d s ++ x) (append-nil (lib.md5 b)))

  abbrev sealed : Keys → Dict Text J → Bytes
  sealed keys payload =
      lib.encrypt keys.token_key keys.token_iv (lib.to_utf8 (lib.stringify payload))

  -- A command packet as it goes out.
  abbrev packet_bytes : ℕ → ℕ → Keys → Dict Text J → Bytes
  packet_bytes d s keys payload =
      let head = preamble (32 + length (sealed keys payload)) d s in
      (head ++ lib.md5 (head ++ (keys.token ++ sealed keys payload))) ++ sealed keys payload

  build_command_packet-bytes :
      (d s : ℕ) (keys : Keys) (payload : Dict Text J)
      → 32 + length (sealed keys payload) < 65536
      → build_command_packet lib (put 12 (u32 s) (put 8 (u32 d) blank_header)) (some keys) payload
        ≡ ok (packet_bytes d s keys payload)
  unfolding build_command_packet write_u32 write_u16
  build_command_packet-bytes d s keys payload h =
      let small : ltb (32 + length (sealed keys payload)) 65536 ≡ true = ground (arith, h) in
      rw small (
        ap (λ x. ok (x ++ sealed keys payload))
          (put-digest (32 + length (sealed keys payload)) d s (
            preamble (32 + length (sealed keys payload)) d s
            ++ (keys.token ++ sealed keys payload))))

  opened-sealed :
      (keys : Keys) (header encrypted plain : Bytes)
      → take 16 (drop 16 header) ≡ digest_of lib header keys.token encrypted
      → 16 ≤ length encrypted
      → lib.decrypt keys.token_key keys.token_iv encrypted ≡ ok plain
      → opened lib (some keys) header encrypted ≡ ok (some plain)
  opened-sealed keys header [] plain same long dec = absurd (omega (arith, long))
  opened-sealed keys header (b ∷ encrypted) plain same long dec =
      rw (same, eq_self (digest_of lib header keys.token (b ∷ encrypted)), dec) refl

  parse_and_decrypt-split :
      (keys : Option Keys) (header encrypted : Bytes) (content : Option Bytes)
      → length header ≡ 32
      → opened lib keys header encrypted ≡ ok content
      → parse_and_decrypt lib keys (header ++ encrypted) ≡ ok (header, content)
  unfolding parse_and_decrypt
  parse_and_decrypt-split keys header encrypted content size h =
      let long : ltb (length (header ++ encrypted)) 32 ≡ false =
        ground (arith, length-append header encrypted, size) in
      rw (long, take_exact 32 header encrypted size, drop_exact 32 header encrypted size, h) refl

  abbrev header_bytes : ℕ → ℕ → Keys → Dict Text J → Bytes
  header_bytes d s keys payload =
      let head = preamble (32 + length (sealed keys payload)) d s in
      head ++ lib.md5 (head ++ (keys.token ++ sealed keys payload))

  header_bytes-length :
      (d s : ℕ) (keys : Keys) (payload : Dict Text J) → length (header_bytes d s keys payload) ≡ 32
  header_bytes-length d s keys payload = omega (
    arith,
    reliable.md5_length
        (preamble (32 + length (sealed keys payload)) d s ++ (keys.token ++ sealed keys payload)),
  )

  header_bytes-opened :
      (d s : ℕ) (keys : Keys) (payload : Dict Text J)
      → opened lib (some keys) (header_bytes d s keys payload) (sealed keys payload)
        ≡ ok (some (lib.to_utf8 (lib.stringify payload)))
  header_bytes-opened d s keys payload =
      let digest =
        lib.md5 (
          preamble (32 + length (sealed keys payload)) d s
          ++ (keys.token ++ sealed keys payload)) in
      opened-sealed keys (header_bytes d s keys payload) (sealed keys payload)
        (lib.to_utf8 (lib.stringify payload)) (take_whole 16 digest (reliable.md5_length _))
        (reliable.encrypt_block keys.token_key keys.token_iv _)
        (reliable.decrypt_encrypt keys.token_key keys.token_iv _)

  -- What the reader of a packet holds.
  abbrev pub received : ℕ → ℕ → Keys → Dict Text J → IncomingPacket
  received d s keys payload = record {
    base = record { header = header_bytes d s keys payload; keys = some keys };
    content = some (lib.to_utf8 (lib.stringify payload));
  }

  incoming_packet-bytes :
      (d s : ℕ) (input : TokenInput) (payload : Dict Text J)
      → length (token_bytes lib input) ≡ 16
      → let keys = keys_of lib (token_bytes lib input) in
        incoming_packet lib (packet_bytes d s keys payload) input ≡ ok (received d s keys payload)
  unfolding incoming_packet base_packet
  incoming_packet-bytes d s input payload h =
      let keys = keys_of lib (token_bytes lib input) in
      rw
        (
          h,
          parse_and_decrypt-split (some keys) (header_bytes d s keys payload) (sealed keys payload)
              _ (header_bytes-length d s keys payload) (header_bytes-opened d s keys payload),
        )
        refl

  received-json :
      (d s : ℕ) (keys : Keys) (payload : Dict Text J)
      → json lib (received d s keys payload) ≡ ok (some payload)
  unfolding json
  received-json d s keys payload =
      let (front, brace) = reliable.stringify_brace payload in
      let bare : strip_trailing 0 (lib.stringify payload) ≡ lib.stringify payload =
        ap (strip_trailing 0) brace ∙ (strip_trailing-brace front ∙ sym brace) in
      rw (reliable.of_utf8_to_utf8 (lib.stringify payload), bare, reliable.parse_stringify payload)
        refl

  -- A command packet for a device id and a stamp of 32 bits that is not too large for its length
  -- field is built, and whoever reads it with the same token, 16 bytes however it is given, gets its
  -- device id, its stamp and the payload, with the id that the packet has put before it.
  pub incoming_packet-raw :
      (now d s : ℕ) (input : TokenInput) (payload : Dict Text J)
      → length (token_bytes lib input) ≡ 16
      → d < 4294967296
      → s < 4294967296
      → let whole = spread payload ((text "id", lib.number now) ∷ []) in
        let keys = keys_of lib (token_bytes lib input) in
        32 + length (sealed keys whole) < 65536
        → (bytes : Bytes) × (packet : IncomingPacket) × ((outgoing_packet lib now (
                some (record {
                  token = some input;
                  payload = some payload;
                  device_id = some d;
                  stamp = some s;
                }))
              >>= raw lib)
            ≡ ok bytes)
          × (incoming_packet lib bytes input ≡ ok packet)
          × (packet_device_id packet.base ≡ d)
          × (packet_stamp packet.base ≡ s)
          × (json lib packet ≡ ok (some whole))
  unfolding outgoing_packet base_packet write_u32 raw packet_device_id packet_stamp
  incoming_packet-raw now d s input payload h hd hs small =
      let whole = spread payload ((text "id", lib.number now) ∷ []) in
      let keys = keys_of lib (token_bytes lib input) in
      let td : ltb d 4294967296 ≡ true = ground (arith, hd) in
      let ts : ltb s 4294967296 ≡ true = ground (arith, hs) in
      (
        packet_bytes d s keys whole,
        received d s keys whole,
        rw (h, td, ts) (build_command_packet-bytes d s keys whole small),
        incoming_packet-bytes d s input whole h,
        u32-read d [] hd,
        u32-read s [] hs,
        received-json d s keys whole,
      )
