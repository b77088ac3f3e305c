-- ===== src/Codec/RoundTrip/Packets.antt =====
-- src/codec.rs: what `encode_packet` writes, `decode_packet_from_bytes` and `read_packet` read back.
use jack_hotaru_mqtt.Base.{
  ℕ, ◌^◌, ◌<◌, ◌≡◌, refl, ap, List, ◌++◌, some, length, arith, length-append,
}
use jack_hotaru_mqtt.Error.{ok, ok-injective, >>=-eq-ok}
use jack_hotaru_mqtt.Codes.PacketType
use jack_hotaru_mqtt.Codes.ProtocolVersion.{ProtocolVersion, v311, v5}
use jack_hotaru_mqtt.Wire.Length.{encode_remaining_length}
use jack_hotaru_mqtt.Properties.{default}
use jack_hotaru_mqtt.Packet.{
  Packet, SubscribePacket, SubackPacket, UnsubscribePacket, UnsubackPacket, connect, connack,
  publish, puback, pubrec, pubrel, pubcomp, subscribe, suback, unsubscribe, unsuback, pingreq,
  pingresp, disconnect,
}
use jack_hotaru_mqtt.Codec.Encode.{
  frame, encode_packet, encode_subscribe, encode_suback, encode_unsubscribe, encode_unsuback,
  encode_properties, type_bits,
}
use jack_hotaru_mqtt.Codec.Stream.{parse_packet, decode_packet_from_bytes, read_packet}
use jack_hotaru_mqtt.Codec.Framing.{decode-frame, read-frame}
use jack_hotaru_mqtt.Codec.RoundTrip.Wire.{IsWire}
use jack_hotaru_mqtt.Codec.RoundTrip.Single.{
  parse-encode_ack, parse-encode_unsuback_v311, parse-encode_unsuback_v5,
}
use jack_hotaru_mqtt.Codec.RoundTrip.Lists.{
  parse-encode_subscribe, parse-encode_suback, parse-encode_unsubscribe,
}
use jack_hotaru_mqtt.Codec.RoundTrip.Framed.{
  Framed, Framed-connect, Framed-connack, Framed-publish, Framed-ack, Framed-empty,
  parse-empty_disconnect,
}

Framed-subscribe :
    (s : SubscribePacket) (version : ProtocolVersion) (wire : List ℕ)
    → IsWire version (subscribe s)
    → encode_subscribe s version ≡ ok wire
    → Framed version (subscribe s) wire
unfolding encode_subscribe parse_packet
Framed-subscribe s version wire (id, some_sub, texts) e =
    let (properties, e_properties, same) = >>=-eq-ok (encode_properties version default) _ e in
    record {
      first = 0x82;
      packet_type = PacketType.subscribe;
      body = _;
      whole = ok-injective same;
      known = refl;
      parsed = parse-encode_subscribe version properties e_properties s id some_sub texts;
    }

Framed-suback :
    (s : SubackPacket) (version : ProtocolVersion) (wire : List ℕ)
    → IsWire version (suback s)
    → encode_suback s version ≡ ok wire
    → Framed version (suback s) wire
unfolding encode_suback parse_packet
Framed-suback s version wire (id, some_code) e =
    let (properties, e_properties, same) = >>=-eq-ok (encode_properties version default) _ e in
    record {
      first = type_bits PacketType.suback;
      packet_type = PacketType.suback;
      body = _;
      whole = ok-injective same;
      known = refl;
      parsed = parse-encode_suback version properties e_properties s id some_code;
    }

Framed-unsubscribe :
    (u : UnsubscribePacket) (version : ProtocolVersion) (wire : List ℕ)
    → IsWire version (unsubscribe u)
    → encode_unsubscribe u version ≡ ok wire
    → Framed version (unsubscribe u) wire
unfolding encode_unsubscribe parse_packet
Framed-unsubscribe u version wire (id, some_topic, texts) e =
    let (properties, e_properties, same) = >>=-eq-ok (encode_properties version default) _ e in
    record {
      first = 0xa2;
      packet_type = PacketType.unsubscribe;
      body = _;
      whole = ok-injective same;
      known = refl;
      parsed = parse-encode_unsubscribe version properties e_properties u id some_topic texts;
    }

Framed-unsuback :
    (u : UnsubackPacket) (version : ProtocolVersion)
    → IsWire version (unsuback u)
    → Framed version (unsuback u) (encode_unsuback u version)
unfolding encode_unsuback parse_packet encode_remaining_length
Framed-unsuback u v311 (id, codes) = record {
  first = 0xb0;
  packet_type = PacketType.unsuback;
  body = _;
  whole = refl;
  known = refl;
  parsed = parse-encode_unsuback_v311 u id codes;
}
Framed-unsuback u v5 (id, codes) = record {
  first = 0xb0;
  packet_type = PacketType.unsuback;
  body = _;
  whole = refl;
  known = refl;
  parsed = parse-encode_unsuback_v5 u id;
}

framed :
    (packet : Packet) (version : ProtocolVersion) (wire : List ℕ)
    → IsWire version packet
    → encode_packet packet version ≡ ok wire
    → Framed version packet wire
unfolding encode_packet parse_packet
framed (connect c) version wire h e = Framed-connect c version wire h e
framed (connack c) version wire h e = Framed-connack c version wire h e
framed (publish p) version wire h e = Framed-publish p version wire h e
framed (puback id) version wire h e = rw (← ok-injective e) (
    Framed-ack 0x40 id PacketType.puback _ version refl
      (parse-encode_ack 0x40 id PacketType.puback version refl h))
framed (pubrec id) version wire h e = rw (← ok-injective e) (
    Framed-ack 0x50 id PacketType.pubrec _ version refl
      (parse-encode_ack 0x50 id PacketType.pubrec version refl h))
framed (pubrel id) version wire h e = rw (← ok-injective e) (
    Framed-ack 0x62 id PacketType.pubrel _ version refl
      (parse-encode_ack 0x62 id PacketType.pubrel version refl h))
framed (pubcomp id) version wire h e = rw (← ok-injective e) (
    Framed-ack 0x70 id PacketType.pubcomp _ version refl
      (parse-encode_ack 0x70 id PacketType.pubcomp version refl h))
framed (subscribe s) version wire h e = Framed-subscribe s version wire h e
framed (suback s) version wire h e = Framed-suback s version wire h e
framed (unsubscribe u) version wire h e = Framed-unsubscribe u version wire h e
framed (unsuback u) version wire h e = rw (← ok-injective e) (Framed-unsuback u version h)
framed pingreq version wire h e =
    rw (← ok-injective e) (Framed-empty 0xc0 PacketType.pingreq _ version refl refl)
framed pingresp version wire h e =
    rw (← ok-injective e) (Framed-empty 0xd0 PacketType.pingresp _ version refl refl)
framed disconnect version wire h e =
    rw (← ok-injective e)
      (Framed-empty 0xe0 PacketType.disconnect _ version refl (parse-empty_disconnect version))

body_size :
    (first : ℕ) (body wire : List ℕ)
    → frame first body ≡ wire
    → length wire < 2 ^ 28
    → length body < 2 ^ 28
body_size first body wire whole h =
    let sizes : length (frame first body) ≡ length wire = ap length whole in
    omega (arith, length-append (encode_remaining_length (length body)) body)

-- Every packet that the wire can represent, and whose encoding is shorter than 2^28 bytes, is decoded
-- from its encoding, whatever follows it: the buffered decoder takes exactly the packet's bytes off the
-- buffer, and the reader exactly those off the stream.
pub decode-encode_packet :
    (packet : Packet) (version : ProtocolVersion) (wire rest : List ℕ)
    → IsWire version packet
    → encode_packet packet version ≡ ok wire
    → length wire < 2 ^ 28
    → (decode_packet_from_bytes (wire ++ rest) version ≡ (ok (some packet), rest))
      × (read_packet (wire ++ rest) version ≡ ok (packet, rest))
decode-encode_packet packet version wire rest h e size =
    let f = framed packet version wire h e in
    let small = body_size f.first f.body wire f.whole size in
    rw (← f.whole) (
      rw (decode-frame f.first f.packet_type f.body rest version f.known small, f.parsed),
      rw (read-frame f.first f.packet_type f.body rest version f.known small, f.parsed),
    )
