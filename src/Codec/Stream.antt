-- ===== src/Codec/Stream.antt =====
-- src/codec.rs: packets on a byte stream: the dispatch on the type, the buffered decoder, the reader
-- and the writers.
use jack_hotaru_mqtt.Base.{
  ℕ, ◌+◌, ◌/◌, ◌^◌, List, [], ◌∷◌, ◌++◌, Option, none, some, length, take, drop, ltb, leb, bit_or,
  if◌then◌else◌, ◌%◌,
}
use jack_hotaru_mqtt.Error.{
  Result, ok, err, ◌>>=◌, ◌>>◌, ok_or, guard, codec, invalid_packet_type, payload_too_long, io,
}
use jack_hotaru_mqtt.Codes.QoS.{needs_id}
use jack_hotaru_mqtt.Codes.PacketType.{PacketType}
use jack_hotaru_mqtt.Codes.PacketType
use jack_hotaru_mqtt.Codes.ProtocolVersion.{ProtocolVersion}
use jack_hotaru_mqtt.Wire.Integers.{u16_be}
use jack_hotaru_mqtt.Wire.Length.{
  encode_remaining_length, decode_remaining_length_from_slice, read_remaining_length,
}
use jack_hotaru_mqtt.Packet.{Packet, PublishPacket, pingreq, pingresp}
use jack_hotaru_mqtt.Codec.Encode.{encode_packet, encode_properties, pack_publish_flags, type_bits}
use jack_hotaru_mqtt.Codec.Parse.{
  parse_connect, parse_connack, parse_publish, parse_ack_packet, parse_disconnect,
  require_empty_body,
}
use jack_hotaru_mqtt.Codec.ParseLists.{
  parse_subscribe, parse_suback, parse_unsubscribe, parse_unsuback,
}

unfoldable pub parse_packet : ℕ → PacketType → ℕ → List ℕ → ProtocolVersion → Result Packet
parse_packet first PacketType.connect remaining body version = parse_connect body
parse_packet first PacketType.connack remaining body version = parse_connack body version
parse_packet first PacketType.publish remaining body version = parse_publish first body version
parse_packet first PacketType.subscribe remaining body version = parse_subscribe body version
parse_packet first PacketType.suback remaining body version = parse_suback body version
parse_packet first PacketType.unsubscribe remaining body version = parse_unsubscribe body version
parse_packet first PacketType.unsuback remaining body version =
    parse_unsuback remaining body version
parse_packet first PacketType.pingreq remaining body version = do
  require_empty_body remaining
  ok pingreq
parse_packet first PacketType.pingresp remaining body version = do
  require_empty_body remaining
  ok pingresp
parse_packet first PacketType.disconnect remaining body version =
    parse_disconnect remaining body version
parse_packet first packet_type remaining body version =
    parse_ack_packet first packet_type remaining body version

-- What `decode_packet_from_bytes` answers once it knows the lengths, and the buffer that it leaves.
abbrev pub split_packet :
    ℕ
    → PacketType
    → (remaining rl_bytes : ℕ) → List ℕ
    → ProtocolVersion
    → Result (Option Packet) × List ℕ
split_packet first packet_type remaining rl_bytes buf version =
    let total = 1 + rl_bytes + remaining in
    if ltb (length buf) total then (ok none, buf) else (
      (do
        packet ←
            parse_packet first packet_type remaining (drop (1 + rl_bytes) (take total buf)) version
        ok (some packet)),
      drop total buf,
    )

abbrev pub decode_lengths :
    ℕ
    → PacketType
    → List ℕ
    → Result (Option (ℕ × ℕ))
    → ProtocolVersion
    → Result (Option Packet) × List ℕ
decode_lengths first packet_type buf (err e) version = (err e, buf)
decode_lengths first packet_type buf (ok none) version = (ok none, buf)
decode_lengths first packet_type buf (ok (some (remaining, rl_bytes))) version =
    split_packet first packet_type remaining rl_bytes buf version

abbrev pub decode_type :
    ℕ → List ℕ → Option PacketType → ProtocolVersion → Result (Option Packet) × List ℕ
decode_type first rest none version =
    (err (codec (invalid_packet_type (first / 2 ^ 4))), first ∷ rest)
decode_type first rest (some packet_type) version =
    decode_lengths first packet_type (first ∷ rest) (decode_remaining_length_from_slice rest)
      version

-- The answer, and the buffer afterwards: `buf` is taken by reference, and `split_to` shortens it.
unfoldable pub decode_packet_from_bytes : List ℕ → ProtocolVersion → Result (Option Packet) × List ℕ
decode_packet_from_bytes [] version = (ok none, [])
decode_packet_from_bytes (first ∷ []) version = (ok none, first ∷ [])
decode_packet_from_bytes (first ∷ next ∷ rest) version =
    decode_type first (next ∷ rest) (PacketType.try_from (first / 2 ^ 4)) version

-- `reader.read_exact`: `n` bytes, or an I/O error at the end of the stream.
abbrev pub read_exact : ℕ → List ℕ → Result (List ℕ × List ℕ)
read_exact n reader = do guard (leb n (length reader)) io; ok (take n reader, drop n reader)

-- The reader is the list of the bytes that are still to come.
unfoldable pub read_packet : List ℕ → ProtocolVersion → Result (Packet × List ℕ)
read_packet [] version = err io
read_packet (first ∷ reader) version = do
  packet_type ←
      ok_or (PacketType.try_from (first / 2 ^ 4)) (codec (invalid_packet_type (first / 2 ^ 4)))
  (remaining, r1) ← read_remaining_length reader
  (body, r2) ← read_exact remaining r1
  packet ← parse_packet first packet_type remaining body version
  ok (packet, r2)

-- What is written to the wire; a failing writer is not modelled.
unfoldable pub write_packet : Packet → ProtocolVersion → Result (List ℕ)
unfolding encode_packet
write_packet packet version = encode_packet packet version

-- `packet.packet_id.ok_or(..)` for a QoS above 0, which writes nothing when there is no id.
abbrev pub required_id : PublishPacket → Result (List ℕ)
required_id packet =
    if needs_id packet.qos
    then (do id ← ok_or packet.packet_id (codec (payload_too_long 0 0)); ok (u16_be id))
    else ok []

-- The header in one write, then the payload.
unfoldable pub write_publish_packet : PublishPacket → ProtocolVersion → Result (List ℕ)
unfolding pack_publish_flags
write_publish_packet packet version = do
  properties ← encode_properties version packet.properties
  let var_header_len =
      2 + length packet.topic + (if needs_id packet.qos then 2 else 0) + length properties
  let body_len = var_header_len + length packet.payload
  id ← required_id packet
  ok (
      (bit_or (type_bits PacketType.publish) (pack_publish_flags packet)
          ∷ encode_remaining_length body_len
        ++ (u16_be (length packet.topic % 2 ^ 16) ++ (packet.topic ++ (id ++ properties))))
      ++ packet.payload)
