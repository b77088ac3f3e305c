-- ===== src/Codec/RoundTrip/Lacking.antt =====
-- A PUBLISH that has no identifier although its QoS needs one, as the encoder writes it.
use jack_hotaru_mqtt.Base.{
  ℕ, ◌+◌, ◌*◌, ◌/◌, ◌%◌, ◌^◌, ◌<◌, ◌≡◌, ap₂, ◌∙◌, true, List, ◌∷◌, ◌++◌, none, some, length, arith,
}
use jack_hotaru_mqtt.Error.{MqttError, ok, err, codec, payload_too_long}
use jack_hotaru_mqtt.Codes.QoS.{QoS, at_most_once, at_least_once, exactly_once, needs_id}
use jack_hotaru_mqtt.Codes.ProtocolVersion.{v311}
use jack_hotaru_mqtt.Wire.Integers.{u16_be}
use jack_hotaru_mqtt.Wire.Fields.RoundTrip.{IsText}
use jack_hotaru_mqtt.Properties.{default}
use jack_hotaru_mqtt.Packet.{PublishPacket, publish}
use jack_hotaru_mqtt.Codec.Encode.{encode_packet, encode_publish}
use jack_hotaru_mqtt.Codec.Stream.{write_publish_packet, read_packet, decode_packet_from_bytes}
use jack_hotaru_mqtt.Codec.RoundTrip.Wire.{HasId}
use jack_hotaru_mqtt.Codec.RoundTrip.Packets.{decode-encode_packet}

two_bytes :
    (hi lo : ℕ) (body : List ℕ)
    → hi < 256
    → lo < 256
    → u16_be (hi * 256 + lo) ++ body ≡ hi ∷ lo ∷ body
two_bytes hi lo body h l =
    let high : (hi * 256 + lo) / 256 % 256 ≡ hi = omega arith in
    let low : (hi * 256 + lo) % 256 ≡ lo = omega arith in
    ap₂ {C = List ℕ} (λ a b. a ∷ b ∷ body) high low

has_id : (q : QoS) (id : ℕ) → needs_id q ≡ true → id < 65536 → HasId q (some id)
has_id at_most_once id needed h = cc
has_id at_least_once id needed h = h
has_id exactly_once id needed h = h

-- The packet that takes its identifier from the first two bytes of the payload.
abbrev shifted : PublishPacket → ℕ → ℕ → List ℕ → PublishPacket
shifted p hi lo body = record p { payload = body; packet_id = some (hi * 256 + lo) }

same_encoding :
    (p : PublishPacket) (hi lo : ℕ) (body : List ℕ)
    → needs_id p.qos ≡ true
    → p.packet_id ≡ none
    → p.payload ≡ hi ∷ lo ∷ body
    → hi < 256
    → lo < 256
    → encode_packet (publish (shifted p hi lo body)) v311 ≡ encode_packet (publish p) v311
unfolding encode_packet encode_publish
same_encoding p hi lo body needed missing starts h l =
    rw (needed, missing, starts, two_bytes hi lo body h l)

-- A PUBLISH of version 3.1.1 that has no identifier although its QoS needs one, with a payload of at
-- least two bytes. The two-part writer refuses it; but what the encoder writes of it is read, by the
-- buffered decoder as by the reader, as another packet: the first two bytes of the payload are its
-- identifier, and its payload lacks them.
pub read-encode_lacking_id :
    (p : PublishPacket) (hi lo : ℕ) (body wire rest : List ℕ)
    → needs_id p.qos ≡ true
    → p.packet_id ≡ none
    → p.payload ≡ hi ∷ lo ∷ body
    → hi < 256
    → lo < 256
    → p.properties ≡ default
    → IsText p.topic
    → encode_packet (publish p) v311 ≡ ok wire
    → length wire < 2 ^ 28
    → let misread = record p { payload = body; packet_id = some (hi * 256 + lo) } in
      ((e : MqttError) × (write_publish_packet p v311 ≡ err e))
      × (decode_packet_from_bytes (wire ++ rest) v311 ≡ (ok (some (publish misread)), rest))
      × (read_packet (wire ++ rest) v311 ≡ ok (publish misread, rest))
read-encode_lacking_id p hi lo body wire rest needed missing starts h l plain text encoded short =
    let (decoded, read) =
      decode-encode_packet (publish (shifted p hi lo body)) v311 wire rest
        (plain, text, has_id p.qos (hi * 256 + lo) needed (omega arith))
        (same_encoding p hi lo body needed missing starts h l ∙ encoded) short in
    (
      (codec (payload_too_long 0 0), unfold write_publish_packet in rw (needed, missing)),
      decoded,
      read,
    )
