-- ===== src/Codec/ParseLists.antt =====
-- src/codec.rs: the parsers of SUBSCRIBE, UNSUBSCRIBE and their acknowledgements. Each round of a
-- `while` loop takes at least two bytes, so the length of the body is fuel enough; with no fuel left
-- the answer is an I/O error, which no parser gives.
use jack_hotaru_mqtt.Base.{
  ℕ, zero, suc, ◌/◌, ◌%◌, ◌^◌, Bool, List, [], ◌∷◌, Str, none, some, length, ltb, leb, ◌==◌, ◌&&◌,
  ◌||◌, not, if◌then◌else◌, drop,
}
use jack_hotaru_mqtt.Error.{
  Result, ok, err, ◌>>=◌, ◌>>◌, ok_or, guard, codec, unexpected_eof, invalid_packet_type,
  qos_invalid, reserved_flag_set, io,
}
use jack_hotaru_mqtt.Codes.QoS
use jack_hotaru_mqtt.Codes.SubackCode.{SubackCode, failure}
use jack_hotaru_mqtt.Codes.SubackCode
use jack_hotaru_mqtt.Codes.ProtocolVersion.{ProtocolVersion, v311, v5, is_v5}
use jack_hotaru_mqtt.Wire.Integers.{u16_of}
use jack_hotaru_mqtt.Wire.Fields.{read_u16, read_arc_str}
use jack_hotaru_mqtt.Properties.Parse
use jack_hotaru_mqtt.Codec.Parse.{parse_properties, byte_at, check_ack_length}
use jack_hotaru_mqtt.Packet.{Packet, TopicSubscription, subscribe, suback, unsubscribe, unsuback}

-- The options byte that each version refuses: `options & 0xC0 != 0` or `(options >> 4) & 3 == 3`.
abbrev pub bad_options : ProtocolVersion → ℕ → Bool
bad_options v311 options = ltb 2 options
bad_options v5 options = not (options / 2 ^ 6 % 4 == 0) || options / 2 ^ 4 % 4 == 3

-- The options byte behind a topic filter, and its QoS.
unfoldable pub read_options : ProtocolVersion → List ℕ → Result (QoS.QoS × List ℕ)
read_options version [] = err (codec unexpected_eof)
read_options version (options ∷ cursor) = do
  guard (not (bad_options version options)) (codec reserved_flag_set)
  qos ← ok_or (QoS.from_u8 (options % 4)) (codec (qos_invalid (options % 4)))
  ok (qos, cursor)

unfoldable pub subscriptions_loop : ℕ → ProtocolVersion → List ℕ → Result (List TopicSubscription)
subscriptions_loop fuel version [] = ok []
subscriptions_loop zero version (b ∷ cursor) = err io
subscriptions_loop (suc fuel) version (b ∷ cursor) = do
  (topic, c1) ← read_arc_str (b ∷ cursor)
  (qos, c2) ← read_options version c1
  rest ← subscriptions_loop fuel version c2
  ok (record { topic = topic; qos = qos } ∷ rest)

-- `if version == V5 { let _ = Properties::parse(body, &mut cursor)?; }`.
abbrev pub skip_properties : ProtocolVersion → List ℕ → Result (List ℕ)
skip_properties version cursor = do (_, rest) ← parse_properties version cursor; ok rest

unfoldable pub parse_subscribe : List ℕ → ProtocolVersion → Result Packet
parse_subscribe body version = do
  guard (not (ltb (length body) 5)) (codec unexpected_eof)
  (packet_id, c1) ← read_u16 body
  c2 ← skip_properties version c1
  subscriptions ← subscriptions_loop (length body) version c2
  ok (subscribe (record { packet_id = packet_id; subscriptions = subscriptions }))

abbrev pub suback_code : ProtocolVersion → ℕ → Result SubackCode
suback_code version b = elim (SubackCode.from_u8 b) [
  | some code ↦ ok code
  | none ↦ if is_v5 version && leb 0x80 b then ok failure else err (codec (invalid_packet_type b))
]

-- `.map(..).collect::<Result<Vec<_>, _>>()`: the first error wins.
abbrev pub suback_codes : ProtocolVersion → List ℕ → Result (List SubackCode)
suback_codes version [] = ok []
suback_codes version (b ∷ cursor) = do
  code ← suback_code version b
  codes ← suback_codes version cursor
  ok (code ∷ codes)

unfoldable pub parse_suback : List ℕ → ProtocolVersion → Result Packet
parse_suback body version = do
  guard (not (ltb (length body) 3)) (codec unexpected_eof)
  (packet_id, c1) ← read_u16 body
  c2 ← skip_properties version c1
  return_codes ← suback_codes version c2
  ok (suback (record { packet_id = packet_id; return_codes = return_codes }))

unfoldable pub topics_loop : ℕ → List ℕ → Result (List Str)
topics_loop fuel [] = ok []
topics_loop zero (b ∷ cursor) = err io
topics_loop (suc fuel) (b ∷ cursor) = do
  (topic, c1) ← read_arc_str (b ∷ cursor)
  rest ← topics_loop fuel c1
  ok (topic ∷ rest)

unfoldable pub parse_unsubscribe : List ℕ → ProtocolVersion → Result Packet
parse_unsubscribe body version = do
  guard (not (ltb (length body) 4)) (codec unexpected_eof)
  (packet_id, c1) ← read_u16 body
  c2 ← skip_properties version c1
  topics ← topics_loop (length body) c2
  ok (unsubscribe (record { packet_id = packet_id; topics = topics }))

-- What is left behind the properties; MQTT 3.1.1 has no reason codes.
abbrev pub reason_codes_of : ProtocolVersion → List ℕ → Result (List ℕ)
reason_codes_of v311 cursor = ok []
reason_codes_of v5 cursor = do (_, rest) ← Parse.parse cursor; ok rest

unfoldable pub parse_unsuback : ℕ → List ℕ → ProtocolVersion → Result Packet
parse_unsuback remaining body version = do
  check_ack_length remaining version
  reason_codes ← reason_codes_of version (drop 2 body)
  ok (
      unsuback (record {
        packet_id = u16_of (byte_at body 0) (byte_at body 1);
        reason_codes = reason_codes;
      }))
