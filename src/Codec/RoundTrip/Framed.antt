-- ===== src/Codec/RoundTrip/Framed.antt =====
-- src/codec.rs: what `encode_packet` writes is one frame, whose body is parsed to the packet.
use jack_hotaru_mqtt.Base.{ℕ, ◌/◌, ◌^◌, ◌≡◌, refl, List, [], ◌∷◌, some, length, bit_or}
use jack_hotaru_mqtt.Error.{ok, ok-injective, >>=-eq-ok}
use jack_hotaru_mqtt.Codes.PacketType
use jack_hotaru_mqtt.Codes.PacketType.{PacketType}
use jack_hotaru_mqtt.Codes.ProtocolVersion.{ProtocolVersion, v311, v5}
use jack_hotaru_mqtt.Wire.Integers.{u16_be}
use jack_hotaru_mqtt.Wire.Length.{encode_remaining_length}
use jack_hotaru_mqtt.Properties.Encode
use jack_hotaru_mqtt.Packet.{
  Packet, PublishPacket, ConnectPacket, ConnackPacket, connect, connack, publish, disconnect,
}
use jack_hotaru_mqtt.Codec.Encode.{
  frame, encode_connect, encode_connack, encode_publish, encode_properties, encode_will, type_bits,
  pack_publish_flags,
}
use jack_hotaru_mqtt.Codec.Parse.{parse_disconnect}
use jack_hotaru_mqtt.Codec.Stream.{parse_packet}
use jack_hotaru_mqtt.Codec.RoundTrip.Wire.{IsWire}
use jack_hotaru_mqtt.Codec.RoundTrip.Connect.{parse-encode_connect}
use jack_hotaru_mqtt.Codec.RoundTrip.Publish.{parse-encode_publish, reads_flags}
use jack_hotaru_mqtt.Codec.RoundTrip.Single.{parse-encode_connack_v311, parse-encode_connack_v5}

-- A wire that is one frame, whose body is parsed to the packet.
pub record Framed (version : ProtocolVersion) (packet : Packet) (wire : List ℕ) : Type 0 where
  pub first : ℕ
  pub packet_type : PacketType
  pub body : List ℕ
  pub whole : frame first body ≡ wire
  pub known : PacketType.try_from (first / 2 ^ 4) ≡ some packet_type
  pub parsed : parse_packet first packet_type (length body) body version ≡ ok packet

pub Framed-connect :
    (c : ConnectPacket) (version : ProtocolVersion) (wire : List ℕ)
    → IsWire version (connect c)
    → encode_connect c ≡ ok wire
    → Framed version (connect c) wire
unfolding encode_connect parse_packet
Framed-connect c version wire h e =
    let (properties, e_properties, e1) = >>=-eq-ok (encode_properties c.version c.properties) _ e in
    let (will, e_will, same) = >>=-eq-ok (encode_will c.version c.will) _ e1 in
    record {
      first = type_bits PacketType.connect;
      packet_type = PacketType.connect;
      body = _;
      whole = ok-injective same;
      known = refl;
      parsed = parse-encode_connect c properties will h e_properties e_will;
    }

pub Framed-connack :
    (ack : ConnackPacket) (version : ProtocolVersion) (wire : List ℕ)
    → IsWire version (connack ack)
    → encode_connack ack version ≡ ok wire
    → Framed version (connack ack) wire
unfolding encode_connack parse_packet encode_remaining_length
Framed-connack ack v311 wire h e = record {
  first = type_bits PacketType.connack;
  packet_type = PacketType.connack;
  body = _;
  whole = ok-injective e;
  known = refl;
  parsed = parse-encode_connack_v311 ack h;
}
Framed-connack ack v5 wire h e =
    let (properties, e_properties, same) = >>=-eq-ok (Encode.encode ack.properties) _ e in
    record {
      first = type_bits PacketType.connack;
      packet_type = PacketType.connack;
      body = _;
      whole = ok-injective same;
      known = refl;
      parsed = parse-encode_connack_v5 ack properties h e_properties;
    }

pub Framed-publish :
    (p : PublishPacket) (version : ProtocolVersion) (wire : List ℕ)
    → IsWire version (publish p)
    → encode_publish p version ≡ ok wire
    → Framed version (publish p) wire
unfolding encode_publish parse_packet
Framed-publish p version wire h e =
    let (properties, e_properties, same) = >>=-eq-ok (encode_properties version p.properties) _ e in
    record {
      first = bit_or (type_bits PacketType.publish) (pack_publish_flags p);
      packet_type = PacketType.publish;
      body = _;
      whole = ok-injective same;
      known = unfold pack_publish_flags in (reads_flags p.dup p.qos p.retain).kind;
      parsed = parse-encode_publish p version properties h e_properties;
    }

pub Framed-ack :
    (first id : ℕ) (t : PacketType) (packet : Packet) (version : ProtocolVersion)
    → PacketType.try_from (first / 2 ^ 4) ≡ some t
    → parse_packet first t 2 (u16_be id) version ≡ ok packet
    → Framed version packet (first ∷ 0x02 ∷ u16_be id)
unfolding encode_remaining_length
Framed-ack first id t packet version known parsed = record {
  first = first;
  packet_type = t;
  body = u16_be id;
  whole = refl;
  known = known;
  parsed = parsed;
}

pub Framed-empty :
    (first : ℕ) (t : PacketType) (packet : Packet) (version : ProtocolVersion)
    → PacketType.try_from (first / 2 ^ 4) ≡ some t
    → parse_packet first t 0 [] version ≡ ok packet
    → Framed version packet (first ∷ 0x00 ∷ [])
unfolding encode_remaining_length
Framed-empty first t packet version known parsed = record {
  first = first;
  packet_type = t;
  body = [];
  whole = refl;
  known = known;
  parsed = parsed;
}

pub parse-empty_disconnect :
    (version : ProtocolVersion) → parse_disconnect 0 [] version ≡ ok disconnect
unfolding parse_disconnect
parse-empty_disconnect v311 = refl
parse-empty_disconnect v5 = refl
