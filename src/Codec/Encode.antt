-- ===== src/Codec/Encode.antt =====
-- src/codec.rs: the encoders. `out.extend(..)` is append, and `|=` on the flags is `bit_or`.
use jack_hotaru_mqtt.Base.{
  ℕ, ◌*◌, ◌%◌, ◌^◌, Bool, true, false, List, [], ◌∷◌, ◌++◌, Str, Option, none, some, length, map,
  bit_and, bit_or, if◌then◌else◌,
}
use jack_hotaru_mqtt.Error.{Result, ok, ◌>>=◌}
use jack_hotaru_mqtt.Codes.QoS.{QoS, needs_id}
use jack_hotaru_mqtt.Codes.QoS
use jack_hotaru_mqtt.Codes.SubackCode
use jack_hotaru_mqtt.Codes.PacketType
use jack_hotaru_mqtt.Codes.ReturnCode
use jack_hotaru_mqtt.Codes.ProtocolVersion
use jack_hotaru_mqtt.Codes.ProtocolVersion.{ProtocolVersion, v311, v5, is_v5}
use jack_hotaru_mqtt.Wire.Integers.{u16_be}
use jack_hotaru_mqtt.Wire.Fields.{write_arc_str, write_bytes}
use jack_hotaru_mqtt.Wire.Length.{encode_remaining_length}
use jack_hotaru_mqtt.Properties.{Properties, default}
use jack_hotaru_mqtt.Properties.Encode
use jack_hotaru_mqtt.Packet.{
  Packet, PublishPacket, WillPacket, ConnectPacket, ConnackPacket, TopicSubscription,
  SubscribePacket, SubackPacket, UnsubscribePacket, UnsubackPacket, connect, connack, publish,
  puback, pubrec, pubrel, pubcomp, subscribe, suback, unsubscribe, unsuback, pingreq, pingresp,
  disconnect,
}

-- `vec![first]`, then the remaining length, then the body.
abbrev pub frame : ℕ → List ℕ → List ℕ
frame first body = first ∷ encode_remaining_length (length body) ++ body

-- The high four bits of the first byte.
abbrev pub type_bits : PacketType.PacketType → ℕ
type_bits t = PacketType.as_u8 t * 2 ^ 4

-- `if version == V5 { properties.encode(&mut body)? }`.
abbrev pub encode_properties : ProtocolVersion → Properties → Result (List ℕ)
encode_properties version properties = if is_v5 version then Encode.encode properties else ok []

abbrev pub optional {ℓ} : {A : Type ℓ} → (A → List ℕ) → Option A → List ℕ
optional write none = []
optional write (some value) = write value

abbrev pub will_flags : Option WillPacket → ℕ
will_flags none = 0
will_flags (some will) =
    bit_or (bit_or 0b100 (bit_and (QoS.as_u8 will.qos * 2 ^ 3) 0b0001_1000))
      (if will.retain then 0b0010_0000 else 0)

abbrev pub is_some {ℓ} : {A : Type ℓ} → Option A → Bool
is_some none = false
is_some (some value) = true

abbrev pub connect_flags : ConnectPacket → ℕ
connect_flags conn =
    let clean = if conn.clean_session then 0b10 else 0 in
    let willed = bit_or clean (will_flags conn.will) in
    let named = bit_or willed (if is_some conn.username then 0b1000_0000 else 0) in
    bit_or named (if is_some conn.password then 0b0100_0000 else 0)

abbrev pub encode_will : ProtocolVersion → Option WillPacket → Result (List ℕ)
encode_will version none = ok []
encode_will version (some will) = do
  properties ← encode_properties version will.properties
  ok (properties ++ (write_arc_str will.topic ++ write_bytes will.payload))

unfoldable pub encode_connect : ConnectPacket → Result (List ℕ)
encode_connect conn = do
  properties ← encode_properties conn.version conn.properties
  will ← encode_will conn.version conn.will
  ok (
      frame (type_bits PacketType.connect) (
        (0x00
          ∷ 0x04
          ∷ b'M'
          ∷ b'Q'
          ∷ b'T'
          ∷ b'T'
          ∷ ProtocolVersion.level conn.version
          ∷ connect_flags conn
          ∷ u16_be conn.keep_alive)
        ++ (properties
            ++ (write_arc_str conn.client_id
                ++ (will
                    ++ (optional write_arc_str conn.username
                        ++ optional write_bytes conn.password))))))

unfoldable pub encode_connack : ConnackPacket → ProtocolVersion → Result (List ℕ)
encode_connack ack v311 = ok (
    type_bits PacketType.connack
    ∷ 0x02
    ∷ (if ack.session_present then 0x01 else 0x00)
    ∷ ReturnCode.as_u8 ack.return_code
    ∷ [])
encode_connack ack v5 = do
  properties ← Encode.encode ack.properties
  ok (
      frame (type_bits PacketType.connack) (
        (if ack.session_present then 0x01 else 0x00)
        ∷ ReturnCode.to_v5_reason ack.return_code
        ∷ properties))

unfoldable pub pack_publish_flags : PublishPacket → ℕ
pack_publish_flags p =
    bit_or (bit_or (if p.dup then 0b1000 else 0) (if p.retain then 0b1 else 0))
      (bit_and (QoS.as_u8 p.qos * 2) 0b110)

-- `if p.qos != QoS::AtMostOnce && let Some(id) = p.packet_id`.
abbrev pub publish_id : PublishPacket → List ℕ
publish_id p = if needs_id p.qos then optional u16_be p.packet_id else []

unfoldable pub encode_publish : PublishPacket → ProtocolVersion → Result (List ℕ)
unfolding pack_publish_flags
encode_publish p version = do
  properties ← encode_properties version p.properties
  ok (
      frame (bit_or (type_bits PacketType.publish) (pack_publish_flags p)) (
        (u16_be (length p.topic % 2 ^ 16) ++ p.topic)
        ++ (publish_id p ++ (properties ++ p.payload))))

abbrev pub encode_subscriptions : List TopicSubscription → List ℕ
encode_subscriptions [] = []
encode_subscriptions (sub ∷ subs) =
    write_arc_str sub.topic ++ (QoS.as_u8 sub.qos ∷ encode_subscriptions subs)

unfoldable pub encode_subscribe : SubscribePacket → ProtocolVersion → Result (List ℕ)
encode_subscribe s version = do
  properties ← encode_properties version default
  ok (
      frame (bit_or (type_bits PacketType.subscribe) 0x02)
        (u16_be s.packet_id ++ (properties ++ encode_subscriptions s.subscriptions)))

unfoldable pub encode_suback : SubackPacket → ProtocolVersion → Result (List ℕ)
encode_suback s version = do
  properties ← encode_properties version default
  ok (
      frame (type_bits PacketType.suback)
        (u16_be s.packet_id ++ (properties ++ map SubackCode.as_u8 s.return_codes)))

abbrev pub encode_topics : List Str → List ℕ
encode_topics [] = []
encode_topics (topic ∷ topics) = write_arc_str topic ++ encode_topics topics

unfoldable pub encode_unsubscribe : UnsubscribePacket → ProtocolVersion → Result (List ℕ)
encode_unsubscribe u version = do
  properties ← encode_properties version default
  ok (
      frame (bit_or (type_bits PacketType.unsubscribe) 0x02)
        (u16_be u.packet_id ++ (properties ++ encode_topics u.topics)))

unfoldable pub encode_unsuback : UnsubackPacket → ProtocolVersion → List ℕ
encode_unsuback packet v311 = 0xb0 ∷ 0x02 ∷ u16_be packet.packet_id
encode_unsuback packet v5 =
    frame (type_bits PacketType.unsuback) (u16_be packet.packet_id ++ (0x00 ∷ packet.reason_codes))

unfoldable pub encode_packet : Packet → ProtocolVersion → Result (List ℕ)
unfolding encode_connect encode_connack encode_publish encode_subscribe encode_suback
    encode_unsubscribe encode_unsuback
encode_packet (connect c) version = encode_connect c
encode_packet (connack c) version = encode_connack c version
encode_packet (publish p) version = encode_publish p version
encode_packet (puback id) version = ok (0x40 ∷ 0x02 ∷ u16_be id)
encode_packet (pubrec id) version = ok (0x50 ∷ 0x02 ∷ u16_be id)
encode_packet (pubrel id) version = ok (0x62 ∷ 0x02 ∷ u16_be id)
encode_packet (pubcomp id) version = ok (0x70 ∷ 0x02 ∷ u16_be id)
encode_packet (subscribe s) version = encode_subscribe s version
encode_packet (suback s) version = encode_suback s version
encode_packet (unsubscribe u) version = encode_unsubscribe u version
encode_packet (unsuback u) version = ok (encode_unsuback u version)
encode_packet pingreq version = ok (0xc0 ∷ 0x00 ∷ [])
encode_packet pingresp version = ok (0xd0 ∷ 0x00 ∷ [])
encode_packet disconnect version = ok (0xe0 ∷ 0x00 ∷ [])
