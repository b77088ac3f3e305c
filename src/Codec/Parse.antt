-- ===== src/Codec/Parse.antt =====
-- src/codec.rs: the parsers of CONNECT, CONNACK, PUBLISH and the acknowledgements. A cursor is the
-- rest of the body from there on.
use jack_hotaru_mqtt.Base.{
  ℕ, ◌-◌, ◌/◌, ◌%◌, ◌^◌, Bool, true, false, List, [], ◌∷◌, bytes, Option, none, some, length, take,
  drop, is_empty, get_elem?, str_eq, ltb, ◌==◌, ◌&&◌, ◌||◌, not, low_bits, bit, if◌then◌else◌,
}
use jack_hotaru_mqtt.Error.{
  Result, ok, ◌>>=◌, ◌>>◌, ok_or, guard, codec, protocol, unexpected_eof, invalid_packet_type,
  payload_too_long, qos_invalid, reserved_flag_set, invalid_protocol_name,
  unsupported_protocol_level,
}
use jack_hotaru_mqtt.Codes.QoS.{QoS, needs_id}
use jack_hotaru_mqtt.Codes.QoS
use jack_hotaru_mqtt.Codes.PacketType.{PacketType}
use jack_hotaru_mqtt.Codes.ReturnCode
use jack_hotaru_mqtt.Codes.ProtocolVersion
use jack_hotaru_mqtt.Codes.ProtocolVersion.{ProtocolVersion, v311, v5, is_v5}
use jack_hotaru_mqtt.Wire.Integers.{u16_of}
use jack_hotaru_mqtt.Wire.Fields.{read_u16, read_arc_str, read_bytes}
use jack_hotaru_mqtt.Properties.{Properties, default}
use jack_hotaru_mqtt.Properties.Parse
use jack_hotaru_mqtt.Packet.{
  Packet, WillPacket, connect, connack, publish, puback, pubrec, pubrel, pubcomp, disconnect,
}

-- `body[i]`; the callers have checked the length, so the 0 is never read.
abbrev pub byte_at : List ℕ → ℕ → ℕ
byte_at body i = elim (get_elem? body i) [ none ↦ 0 | some b ↦ b ]

-- `if version == V5 { Properties::parse(..)? } else { Properties::default() }`.
abbrev pub parse_properties : ProtocolVersion → List ℕ → Result (Properties × List ℕ)
parse_properties v311 cursor = ok (default, cursor)
parse_properties v5 cursor = Parse.parse cursor

-- `if cursor != body.len() { return Err(PayloadTooLong { len: body.len() - cursor, max: 0 }) }`.
abbrev pub require_end : List ℕ → Result (Unit {0})
require_end cursor = guard (is_empty cursor) (codec (payload_too_long (length cursor) 0))

abbrev pub usize_max : ℕ
usize_max = 2 ^ 64 - 1

abbrev pub require_empty_body : ℕ → Result (Unit {0})
require_empty_body remaining = guard (remaining == 0) (codec (payload_too_long remaining 0))

abbrev pub parse_will : ProtocolVersion → ℕ → List ℕ → Result (Option WillPacket × List ℕ)
parse_will version flags_byte cursor =
    if bit flags_byte 2 == 1
    then (do
      (properties, c1) ← parse_properties version cursor
      (topic, c2) ← read_arc_str c1
      (payload, c3) ← read_bytes c2
      qos ←
          ok_or (QoS.from_u8 (flags_byte / 2 ^ 3 % 4))
            (codec (qos_invalid (flags_byte / 2 ^ 3 % 4)))
      ok (
        some (record {
          properties = properties;
          topic = topic;
          payload = payload;
          qos = qos;
          retain = bit flags_byte 5 == 1;
        }),
        c3,
      ))
    else ok (none, cursor)

-- `if flag { Some(read(..)?) } else { None }`.
abbrev pub read_if {ℓ} :
    {A : Type ℓ} → Bool → (List ℕ → Result (A × List ℕ)) → List ℕ → Result (Option A × List ℕ)
read_if true read cursor = do (value, rest) ← read cursor; ok (some value, rest)
read_if false read cursor = ok (none, cursor)

unfoldable pub parse_connect : List ℕ → Result Packet
parse_connect body = do
  guard (not (ltb (length body) 10)) (codec unexpected_eof)
  guard
      (u16_of (byte_at body 0) (byte_at body 1) == 4
        && str_eq (take 4 (drop 2 body)) (bytes "MQTT"))
      (protocol invalid_protocol_name)
  version ←
      ok_or (ProtocolVersion.from_level (byte_at body 6))
        (protocol (unsupported_protocol_level (byte_at body 6)))
  let flags_byte = byte_at body 7
  (properties, c1) ← parse_properties version (drop 10 body)
  (client_id, c2) ← read_arc_str c1
  (will, c3) ← parse_will version flags_byte c2
  (username, c4) ← read_if (bit flags_byte 7 == 1) read_arc_str c3
  (password, c5) ← read_if (bit flags_byte 6 == 1) read_bytes c4
  ok (
      connect (record {
        version = version;
        properties = properties;
        client_id = client_id;
        clean_session = bit flags_byte 1 == 1;
        keep_alive = u16_of (byte_at body 8) (byte_at body 9);
        username = username;
        password = password;
        will = will;
      }))

abbrev pub return_code_of : ProtocolVersion → ℕ → Option ReturnCode.ConnackReturnCode
return_code_of v311 code = ReturnCode.try_from code
return_code_of v5 code = ReturnCode.from_v5_reason code

unfoldable pub parse_connack : List ℕ → ProtocolVersion → Result Packet
parse_connack body version = do
  guard (not (ltb (length body) 2)) (codec unexpected_eof)
  return_code ←
      ok_or (return_code_of version (byte_at body 1)) (codec (invalid_packet_type (byte_at body 1)))
  (properties, cursor) ← parse_properties version (drop 2 body)
  require_end cursor
  ok (
      connack (record {
        properties = properties;
        session_present = not (bit (byte_at body 0) 0 == 0);
        return_code = return_code;
      }))

-- `FixedHeaderFlags::from_bits`: every one of the four low bits is a flag.
abbrev pub from_bits : ℕ → Option ℕ
from_bits raw = if ltb raw 16 then some raw else none

unfoldable pub parse_publish : ℕ → List ℕ → ProtocolVersion → Result Packet
parse_publish first body version = do
  guard (not (ltb (length body) 2)) (codec unexpected_eof)
  flags ← ok_or (from_bits (low_bits first 4)) (codec reserved_flag_set)
  qos ← ok_or (QoS.from_u8 (flags / 2 % 4)) (codec (qos_invalid (flags / 2 % 4)))
  (topic, c1) ← read_arc_str body
  (packet_id, c2) ← read_if (needs_id qos) read_u16 c1
  (properties, c3) ← parse_properties version c2
  ok (
      publish (record {
        properties = properties;
        topic = topic;
        payload = c3;
        dup = bit flags 3 == 1;
        qos = qos;
        retain = bit flags 0 == 1;
        packet_id = packet_id;
      }))

-- The packet that an acknowledgement type names; `match` ends in `_ => Packet::Pubcomp(id)`.
abbrev pub ack_packet : PacketType → ℕ → Packet
ack_packet PacketType.puback id = puback id
ack_packet PacketType.pubrec id = pubrec id
ack_packet PacketType.pubrel id = pubrel id
ack_packet _ id = pubcomp id

abbrev pub expected_flags : PacketType → ℕ
expected_flags PacketType.pubrel = 0x02
expected_flags _ = 0x00

-- The length test that `parse_ack_packet` and `parse_unsuback` share.
abbrev pub check_ack_length : ℕ → ProtocolVersion → Result (Unit {0})
check_ack_length remaining version =
    guard (not (ltb remaining 2 || (not (is_v5 version) && not (remaining == 2))))
      (codec (payload_too_long remaining (if is_v5 version then usize_max else 2)))

-- Reason code and properties of a long acknowledgement; both are dropped.
abbrev pub skip_reason : ℕ → List ℕ → ProtocolVersion → Result (Unit {0})
skip_reason remaining body version =
    if is_v5 version && ltb 2 remaining
    then (do
      cursor ←
          (if ltb 3 remaining
            then (do (_, c) ← Parse.parse (drop 3 body); ok c)
            else ok (drop 3 body))
      require_end cursor)
    else ok tt

unfoldable pub parse_ack_packet : ℕ → PacketType → ℕ → List ℕ → ProtocolVersion → Result Packet
parse_ack_packet first packet_type remaining body version = do
  check_ack_length remaining version
  guard (low_bits first 4 == expected_flags packet_type) (codec reserved_flag_set)
  skip_reason remaining body version
  ok (ack_packet packet_type (u16_of (byte_at body 0) (byte_at body 1)))

unfoldable pub parse_disconnect : ℕ → List ℕ → ProtocolVersion → Result Packet
parse_disconnect remaining body v311 = do require_empty_body remaining; ok disconnect
parse_disconnect remaining [] v5 = ok disconnect
parse_disconnect remaining (reason ∷ rest) v5 = do
  cursor ← (if is_empty rest then ok rest else (do (_, c) ← Parse.parse rest; ok c))
  require_end cursor
  ok disconnect
