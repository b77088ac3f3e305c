-- ===== src/Codec/RoundTrip/Connect.antt =====
-- The body of CONNECT is parsed to the packet that was encoded.
use jack_hotaru_mqtt.Base.{
  ℕ, suc, ◌/◌, ◌%◌, ◌^◌, ◌≡◌, refl, false, Bool, List, [], ◌∷◌, ◌++◌, Str, Option, none, some,
  length, ltb, arith, if◌then◌else◌, append_assoc, append-nil, bit, ◌==◌, bit_or,
}
use jack_hotaru_mqtt.Error.{ok, ok-injective, >>=-eq-ok}
use jack_hotaru_mqtt.Codes.QoS
use jack_hotaru_mqtt.Codes.QoS.{QoS, at_most_once, at_least_once, exactly_once}
use jack_hotaru_mqtt.Codes.RoundTrip.{qos_of_as_u8}
use jack_hotaru_mqtt.Codes.ProtocolVersion
use jack_hotaru_mqtt.Codes.ProtocolVersion.{ProtocolVersion, v311, v5}
use jack_hotaru_mqtt.Wire.Integers.{u16_be, u16_back}
use jack_hotaru_mqtt.Wire.Fields.{read_arc_str, read_bytes, write_arc_str, write_bytes}
use jack_hotaru_mqtt.Wire.Fields.RoundTrip.{IsText, IsBlob, read-write_arc_str, read-write_bytes}
use jack_hotaru_mqtt.Properties.RoundTrip.Field.{Fits}
use jack_hotaru_mqtt.Packet.{ConnectPacket, WillPacket, connect}
use jack_hotaru_mqtt.Codec.Encode.{
  encode_properties, encode_will, optional, connect_flags, will_flags, is_some,
}
use jack_hotaru_mqtt.Codec.Parse.{parse_will, parse_connect, read_if}
use jack_hotaru_mqtt.Codec.RoundTrip.Wire.{IsWillWire, IsConnectWire}
use jack_hotaru_mqtt.Codec.RoundTrip.Publish.{parse-properties}

abbrev flags_of : Bool → ℕ → Bool → Bool → ℕ
flags_of clean will named secret =
    bit_or (bit_or (bit_or (if clean then 0b10 else 0) will) (if named then 0b1000_0000 else 0))
      (if secret then 0b0100_0000 else 0)

record ReadsFlags (flags : ℕ) (clean willed named secret : Bool) : Type 0 where
  clean_bit : (bit flags 1 == 1) ≡ clean
  will_bit : (bit flags 2 == 1) ≡ willed
  named_bit : (bit flags 7 == 1) ≡ named
  secret_bit : (bit flags 6 == 1) ≡ secret

reads_flags :
    (will : Option WillPacket) (clean named secret : Bool)
    → ReadsFlags (flags_of clean (will_flags will) named secret) clean (is_some will) named secret
reads_flags none clean named secret = ground arith
reads_flags (some will) clean named secret = ground arith

reads_will :
    (will : WillPacket) (clean named secret : Bool)
    → let flags = flags_of clean (will_flags (some will)) named secret in
      (flags / 2 ^ 3 % 4 ≡ QoS.as_u8 will.qos) × ((bit flags 5 == 1) ≡ will.retain)
reads_will will clean named secret = ground arith

read_text :
    (value : Option Str) (rest : List ℕ)
    → Fits IsText value
    → read_if (is_some value) read_arc_str (optional write_arc_str value ++ rest) ≡ ok (value, rest)
read_text none rest h = refl
read_text (some s) rest h = rw (read-write_arc_str s rest h)

read_blob :
    (value : Option (List ℕ)) (rest : List ℕ)
    → Fits IsBlob value
    → read_if (is_some value) read_bytes (optional write_bytes value ++ rest) ≡ ok (value, rest)
read_blob none rest h = refl
read_blob (some s) rest h = rw (read-write_bytes s rest h)

parse-encode_will :
    (version : ProtocolVersion) (will : Option WillPacket) (clean named secret : Bool)
    (wire rest : List ℕ)
    → Fits (IsWillWire version) will
    → encode_will version will ≡ ok wire
    → parse_will version (flags_of clean (will_flags will) named secret) (wire ++ rest)
      ≡ ok (will, rest)
parse-encode_will version none clean named secret wire rest h e =
    rw ((reads_flags none clean named secret).will_bit, ← ok-injective e)
parse-encode_will version (some will) clean named secret wire rest h e =
    let flags = reads_will will clean named secret in
    let (properties, encoded, same) = >>=-eq-ok (encode_properties version will.properties) _ e in
    let tail = write_bytes will.payload ++ rest in
    rw (
      (reads_flags (some will) clean named secret).will_bit,
      ← ok-injective same,
      append_assoc properties (write_arc_str will.topic ++ write_bytes will.payload) rest,
      append_assoc (write_arc_str will.topic) (write_bytes will.payload) rest,
      parse-properties version will.properties properties (write_arc_str will.topic ++ tail) h.0
          encoded,
      read-write_arc_str will.topic tail h.1,
      read-write_bytes will.payload rest h.2,
      flags.0,
      qos_of_as_u8 will.qos,
      flags.1,
    )

level_back : (v : ProtocolVersion) → ProtocolVersion.from_level (ProtocolVersion.level v) ≡ some v
level_back v311 = refl
level_back v5 = refl

long_enough : (n : ℕ) → ltb (suc (suc (suc (suc (suc (suc (suc (suc (suc (suc n)))))))))) 10 ≡ false
long_enough n = ground arith

pub parse-encode_connect :
    (c : ConnectPacket) (properties will : List ℕ)
    → IsConnectWire c
    → encode_properties c.version c.properties ≡ ok properties
    → encode_will c.version c.will ≡ ok will
    → parse_connect (
        (0x00
          ∷ 0x04
          ∷ b'M'
          ∷ b'Q'
          ∷ b'T'
          ∷ b'T'
          ∷ ProtocolVersion.level c.version
          ∷ connect_flags c
          ∷ u16_be c.keep_alive)
        ++ (properties
            ++ (write_arc_str c.client_id
                ++ (will
                    ++ (optional write_arc_str c.username ++ optional write_bytes c.password)))))
      ≡ ok (connect c)
unfolding parse_connect
parse-encode_connect c properties will (ps, id, keep, user, pass, last) e_properties e_will =
    let flags = reads_flags c.will c.clean_session (is_some c.username) (is_some c.password) in
    let secret = optional write_bytes c.password in
    let names = optional write_arc_str c.username ++ secret in
    let blob : read_if (is_some c.password) read_bytes secret ≡ ok (c.password, []) =
      rw append-nil at (read_blob c.password [] pass) in
    rw (
      long_enough (length (properties ++ (write_arc_str c.client_id ++ (will ++ names)))),
      level_back c.version,
      parse-properties c.version c.properties properties
          (write_arc_str c.client_id ++ (will ++ names)) ps e_properties,
      read-write_arc_str c.client_id (will ++ names) id,
      parse-encode_will c.version c.will c.clean_session (is_some c.username) (is_some c.password)
          will names last e_will,
      flags.named_bit,
      read_text c.username secret user,
      flags.secret_bit,
      blob,
      flags.clean_bit,
      u16_back c.keep_alive keep,
    )
