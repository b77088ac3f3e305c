-- ===== src/Codec/Writers.antt =====
-- src/codec.rs: the writer that sends a PUBLISH in two parts, against the encoder.
use jack_hotaru_mqtt.Base.{
  ℕ, ◌+◌, ◌%◌, ◌^◌, ◌≡◌, refl, false, List, ◌∷◌, ◌++◌, some, length, arith, length-append,
  append_assoc, ap, if◌then◌else◌, ◌⊎◌, inl, inr,
}
use jack_hotaru_mqtt.Error.{Result-cases, ok}
use jack_hotaru_mqtt.Codes.QoS.{needs_id}
use jack_hotaru_mqtt.Codes.ProtocolVersion.{ProtocolVersion}
use jack_hotaru_mqtt.Wire.Integers.{u16_be}
use jack_hotaru_mqtt.Packet.{PublishPacket, publish}
use jack_hotaru_mqtt.Codec.Encode.{encode_packet, encode_publish, encode_properties, publish_id}
use jack_hotaru_mqtt.Codec.Stream.{write_publish_packet, required_id}

abbrev pub MayWrite : PublishPacket → Type 0
MayWrite p = (needs_id p.qos ≡ false) ⊎ ((id : ℕ) × (p.packet_id ≡ some id))

same_length :
    (k : ℕ) (topic id properties payload : List ℕ)
    → length id ≡ k
    → 2 + length topic + k + length properties + length payload
      ≡ length ((u16_be (length topic % 2 ^ 16) ++ topic) ++ (id ++ (properties ++ payload)))
same_length k topic id properties payload h = omega (
  arith,
  h,
  length-append topic (id ++ (properties ++ payload)),
  length-append id (properties ++ payload),
  length-append properties payload,
)

same_bytes :
    (first : ℕ) (size head topic id properties payload : List ℕ)
    → (first ∷ size ++ (head ++ (topic ++ (id ++ properties)))) ++ payload
      ≡ first ∷ size ++ ((head ++ topic) ++ (id ++ (properties ++ payload)))
same_bytes first size head topic id properties payload =
    rw
      (
        append_assoc size (head ++ (topic ++ (id ++ properties))) payload,
        append_assoc head (topic ++ (id ++ properties)) payload,
        append_assoc topic (id ++ properties) payload,
        append_assoc id properties payload,
        append_assoc head topic (id ++ (properties ++ payload)),
      )
      refl

id_of :
    (p : PublishPacket)
    → MayWrite p
    → (required_id p ≡ ok (publish_id p))
      × (length (publish_id p) ≡ (if needs_id p.qos then 2 else 0))
id_of p (inl none_needed) = ground (arith, none_needed)
id_of p (inr (id, there)) = ground (arith, there)

-- Where the identifier is there if the QoS needs one, the two-part writer of a PUBLISH writes the very
-- bytes that `encode_packet` gives, and fails where it fails.
pub write-publish_packet :
    (p : PublishPacket) (version : ProtocolVersion)
    → MayWrite p
    → write_publish_packet p version ≡ encode_packet (publish p) version
unfolding write_publish_packet encode_packet encode_publish
write-publish_packet p version may =
    let (required, size) = id_of p may in
    elim (Result-cases (encode_properties version p.properties)) [
      | inl (properties, done) ↦
          rw
            (
              done,
              required,
              same_length (if needs_id p.qos then 2 else 0) p.topic (publish_id p) properties
                  p.payload size,
            )
            (ap ok (
              same_bytes _ _ (u16_be (length p.topic % 2 ^ 16)) p.topic (publish_id p) properties
                p.payload))
      | inr (e, failed) ↦ rw failed
    ]
