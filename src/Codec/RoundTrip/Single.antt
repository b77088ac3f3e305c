-- ===== src/Codec/RoundTrip/Single.antt =====
-- Acknowledgements and CONNACK.
use jack_hotaru_mqtt.Base.{
  ℕ, ◌%◌, ◌^◌, ◌≡◌, refl, List, [], ◌∷◌, ◌++◌, length, arith, if◌then◌else◌, append-nil,
}
use jack_hotaru_mqtt.Error.{ok}
use jack_hotaru_mqtt.Codes.PacketType.{PacketType}
use jack_hotaru_mqtt.Codes.ReturnCode
use jack_hotaru_mqtt.Codes.ReturnCode.{ConnackReturnCode}
use jack_hotaru_mqtt.Codes.RoundTrip.{return_code_read_back}
use jack_hotaru_mqtt.Codes.ProtocolVersion.{ProtocolVersion, v311, v5}
use jack_hotaru_mqtt.Wire.Integers.{u16_be, u16_back}
use jack_hotaru_mqtt.Properties.{default}
use jack_hotaru_mqtt.Properties.Encode
use jack_hotaru_mqtt.Properties.Parse
use jack_hotaru_mqtt.Properties.Write.{write_vbi}
use jack_hotaru_mqtt.Properties.Validate.{validate_values}
use jack_hotaru_mqtt.Wire.Length.{encode_remaining_length}
use jack_hotaru_mqtt.Properties.RoundTrip.Table.{IsTyped, parse-encode}
use jack_hotaru_mqtt.Packet.{ConnackPacket, UnsubackPacket, connack, unsuback}
use jack_hotaru_mqtt.Codec.Parse.{parse_ack_packet, parse_connack, ack_packet, expected_flags}
use jack_hotaru_mqtt.Codec.ParseLists.{parse_unsuback}
use jack_hotaru_mqtt.Codec.RoundTrip.Wire.{IsId}

-- An acknowledgement of two bytes, under either version.
pub parse-encode_ack :
    (first id : ℕ) (t : PacketType) (version : ProtocolVersion)
    → first % 2 ^ 4 ≡ expected_flags t
    → IsId id
    → parse_ack_packet first t 2 (u16_be id) version ≡ ok (ack_packet t id)
unfolding parse_ack_packet
parse-encode_ack first id t v311 f h = rw (f, u16_back id h) (ground arith)
parse-encode_ack first id t v5 f h = rw (f, u16_back id h) (ground arith)

pub parse-encode_connack_v311 :
    (ack : ConnackPacket)
    → ack.properties ≡ default
    → parse_connack
        ((if ack.session_present then 0x01 else 0x00) ∷ ReturnCode.as_u8 ack.return_code ∷ [])
        v311
      ≡ ok (connack ack)
unfolding parse_connack
parse-encode_connack_v311 ack h = ground (arith, return_code_read_back ack.return_code)

pub parse-encode_connack_v5 :
    (ack : ConnackPacket) (properties : List ℕ)
    → IsTyped ack.properties
    → Encode.encode ack.properties ≡ ok properties
    → parse_connack
        ((if ack.session_present then 0x01 else 0x00)
          ∷ ReturnCode.to_v5_reason ack.return_code
          ∷ properties)
        v5
      ≡ ok (connack ack)
unfolding parse_connack
parse-encode_connack_v5 ack properties h e =
    let back : Parse.parse properties ≡ ok (ack.properties, []) =
      rw append-nil at (parse-encode ack.properties properties [] h e) in
    ground (arith, back, return_code_read_back ack.return_code)

default-IsTyped : IsTyped default
default-IsTyped = omega arith

parse_empty : (rest : List ℕ) → Parse.parse (0x00 ∷ rest) ≡ ok (default, rest)
unfolding Encode.encode write_vbi validate_values encode_remaining_length
parse_empty rest = parse-encode default (0x00 ∷ []) rest default-IsTyped refl

pub parse-encode_unsuback_v311 :
    (packet : UnsubackPacket)
    → IsId packet.packet_id
    → packet.reason_codes ≡ []
    → parse_unsuback 2 (u16_be packet.packet_id) v311 ≡ ok (unsuback packet)
unfolding parse_unsuback
parse-encode_unsuback_v311 packet id none = rw (u16_back packet.packet_id id) (ground arith)

pub parse-encode_unsuback_v5 :
    (packet : UnsubackPacket)
    → IsId packet.packet_id
    → let body = u16_be packet.packet_id ++ (0x00 ∷ packet.reason_codes) in
      parse_unsuback (length body) body v5 ≡ ok (unsuback packet)
unfolding parse_unsuback
parse-encode_unsuback_v5 packet id =
    rw (parse_empty packet.reason_codes, u16_back packet.packet_id id) (ground arith)
