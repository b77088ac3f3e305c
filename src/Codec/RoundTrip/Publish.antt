-- ===== src/Codec/RoundTrip/Publish.antt =====
-- A PUBLISH body is parsed to the packet that was encoded.
use jack_hotaru_mqtt.Base.{
  ℕ, suc, ◌/◌, ◌%◌, ◌^◌, ◌≡◌, Bool, true, false, List, [], ◌++◌, Option, none, some, length, ltb,
  arith, if◌then◌else◌, bit_or, bit_and, bit, low_bits, ◌==◌, ◌*◌,
}
use jack_hotaru_mqtt.Error.{ok}
use jack_hotaru_mqtt.Codes.QoS
use jack_hotaru_mqtt.Codes.RoundTrip.{qos_of_as_u8}
use jack_hotaru_mqtt.Codes.QoS.{QoS, at_most_once, at_least_once, exactly_once, needs_id}
use jack_hotaru_mqtt.Codes.PacketType
use jack_hotaru_mqtt.Codes.ProtocolVersion.{ProtocolVersion, v311, v5}
use jack_hotaru_mqtt.Wire.Integers.{u16_be}
use jack_hotaru_mqtt.Wire.Fields.{read_u16, write_arc_str}
use jack_hotaru_mqtt.Wire.Fields.RoundTrip.{read-u16_be, read-write_arc_str}
use jack_hotaru_mqtt.Properties.{Properties}
use jack_hotaru_mqtt.Properties.RoundTrip.Table.{parse-encode}
use jack_hotaru_mqtt.Packet.{PublishPacket, publish}
use jack_hotaru_mqtt.Codec.Encode.{
  encode_properties, pack_publish_flags, publish_id, type_bits, optional,
}
use jack_hotaru_mqtt.Codec.Parse.{parse_properties, parse_publish, read_if, from_bits}
use jack_hotaru_mqtt.Codec.RoundTrip.Wire.{HasProperties, HasId, IsPublishWire}

-- A property block, or its absence, is read back under either version.
pub parse-properties :
    (version : ProtocolVersion) (p : Properties) (wire rest : List ℕ)
    → HasProperties version p
    → encode_properties version p ≡ ok wire
    → parse_properties version (wire ++ rest) ≡ ok (p, rest)
parse-properties v311 p wire rest h e = ground arith
parse-properties v5 p wire rest h e = parse-encode p wire rest h e

read_id :
    (q : QoS) (id : Option ℕ) (rest : List ℕ)
    → HasId q id
    → read_if (needs_id q) read_u16 ((if needs_id q then optional u16_be id else []) ++ rest)
      ≡ ok (id, rest)
read_id at_most_once id rest h = rw h
read_id at_least_once none rest h = absurd h
read_id at_least_once (some id) rest h = rw (read-u16_be id rest h)
read_id exactly_once none rest h = absurd h
read_id exactly_once (some id) rest h = rw (read-u16_be id rest h)

-- The flags of `pack_publish_flags`, and what the parser takes from the first byte.
abbrev flags_of : Bool → QoS → Bool → ℕ
flags_of dup qos retain =
    bit_or (bit_or (if dup then 0b1000 else 0) (if retain then 0b1 else 0))
      (bit_and (QoS.as_u8 qos * 2) 0b110)

abbrev first_of : Bool → QoS → Bool → ℕ
first_of dup qos retain = bit_or (type_bits PacketType.publish) (flags_of dup qos retain)

pub record ReadsFlags (dup : Bool) (qos : QoS) (retain : Bool) : Type 0 where
  pub known : from_bits (low_bits (first_of dup qos retain) 4) ≡ some (flags_of dup qos retain)
  pub qos_bits : flags_of dup qos retain / 2 % 4 ≡ QoS.as_u8 qos
  pub dup_bit : (bit (flags_of dup qos retain) 3 == 1) ≡ dup
  pub retain_bit : (bit (flags_of dup qos retain) 0 == 1) ≡ retain
  pub kind : PacketType.try_from (first_of dup qos retain / 2 ^ 4) ≡ some PacketType.publish

pub reads_flags : (dup : Bool) (qos : QoS) (retain : Bool) → ReadsFlags dup qos retain
reads_flags true at_most_once true = ground arith
reads_flags true at_most_once false = ground arith
reads_flags true at_least_once true = ground arith
reads_flags true at_least_once false = ground arith
reads_flags true exactly_once true = ground arith
reads_flags true exactly_once false = ground arith
reads_flags false at_most_once true = ground arith
reads_flags false at_most_once false = ground arith
reads_flags false at_least_once true = ground arith
reads_flags false at_least_once false = ground arith
reads_flags false exactly_once true = ground arith
reads_flags false exactly_once false = ground arith

long_enough : (n : ℕ) → ltb (suc (suc n)) 2 ≡ false
long_enough n = ground arith

pub parse-encode_publish :
    (p : PublishPacket) (version : ProtocolVersion) (properties : List ℕ)
    → IsPublishWire version p
    → encode_properties version p.properties ≡ ok properties
    → parse_publish
        (bit_or (type_bits PacketType.publish) (pack_publish_flags p))
        ((u16_be (length p.topic % 2 ^ 16) ++ p.topic)
          ++ (publish_id p ++ (properties ++ p.payload)))
        version
      ≡ ok (publish p)
unfolding parse_publish write_arc_str pack_publish_flags
parse-encode_publish p version properties h e =
    let flags = reads_flags p.dup p.qos p.retain in
    let topic = read-write_arc_str p.topic (publish_id p ++ (properties ++ p.payload)) h.1 in
    rw (
      long_enough (length (p.topic ++ (publish_id p ++ (properties ++ p.payload)))),
      flags.known,
      flags.qos_bits,
      qos_of_as_u8 p.qos,
      topic,
      read_id p.qos p.packet_id (properties ++ p.payload) h.2,
      parse-properties version p.properties properties p.payload h.0 e,
      flags.dup_bit,
      flags.retain_bit,
    )
