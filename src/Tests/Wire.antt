-- ===== src/Tests/Wire.antt =====
-- Concrete packets, properties, lengths and identifiers.
use jack_hotaru_mqtt.Base.{
  ℕ, ◌^◌, ◌<◌, ◌≤◌, ◌≡◌, ◌≢◌, refl, inr, false, List, [], ◌∷◌, ◌++◌, bytes, none, some, arith,
  is_utf8,
}
use jack_hotaru_mqtt.Error.{MqttError, ok, err, io}
use jack_hotaru_mqtt.Codes.QoS.{at_least_once}
use jack_hotaru_mqtt.Codes.PacketType
use jack_hotaru_mqtt.Codes.ProtocolVersion.{v311, v5}
use jack_hotaru_mqtt.Wire.Length.{encode_remaining_length}
use jack_hotaru_mqtt.Properties.{Properties, default}
use jack_hotaru_mqtt.Properties.Encode.{encode}
use jack_hotaru_mqtt.Properties.Parse.{parse}
use jack_hotaru_mqtt.Properties.Write.{write_vbi, write_string}
use jack_hotaru_mqtt.Properties.Read.{validate_string}
use jack_hotaru_mqtt.Properties.Validate.{validate_values}
use jack_hotaru_mqtt.Properties.RoundTrip.Table.{IsTyped, parse-encode}
use jack_hotaru_mqtt.Packet.{PublishPacket, publish}
use jack_hotaru_mqtt.Codec.Encode.{encode_packet, pack_publish_flags}
use jack_hotaru_mqtt.Codec.Stream.{decode_packet_from_bytes, read_packet, write_publish_packet}
use jack_hotaru_mqtt.Codec.Framing.{decode-incomplete}
use jack_hotaru_mqtt.Codec.RoundTrip.Packets.{decode-encode_packet}
use jack_hotaru_mqtt.Codec.Writers.{write-publish_packet}
use jack_hotaru_mqtt.Codec.RoundTrip.Lacking.{read-encode_lacking_id}
use jack_hotaru_mqtt.Codec.ParseLists.{parse_subscribe, parse_unsubscribe}
use jack_hotaru_mqtt.Codec.Ends.Lists.{lists_end}
use jack_hotaru_mqtt.Session
use jack_hotaru_mqtt.Session.{MqttSession, allocate_packet_id}
use jack_hotaru_mqtt.Session.Counter.{
  IsCounter, allocate_many, allocate_bounds, allocate_distinct, allocate_repeats,
}

abbrev reading : PublishPacket
reading = record {
  properties = default;
  topic = bytes "a/b";
  payload = 1 ∷ 2 ∷ 3 ∷ [];
  dup = false;
  qos = at_least_once;
  retain = false;
  packet_id = some 10;
}

abbrev reading_wire : List ℕ
reading_wire = 0x32 ∷ 11 ∷ 0 ∷ 3 ∷ 97 ∷ 47 ∷ 98 ∷ 0 ∷ 10 ∷ 0 ∷ 1 ∷ 2 ∷ 3 ∷ []

default-IsTyped : IsTyped default
default-IsTyped = omega arith

decode-encode_packet_example :
    (decode_packet_from_bytes (reading_wire ++ (0xc0 ∷ [])) v5
      ≡ (ok (some (publish reading)), 0xc0 ∷ []))
    × (read_packet (reading_wire ++ (0xc0 ∷ [])) v5 ≡ ok (publish reading, 0xc0 ∷ []))
unfolding encode_packet encode_remaining_length write_vbi validate_values is_utf8 encode
decode-encode_packet_example =
    decode-encode_packet (publish reading) v5 reading_wire (0xc0 ∷ [])
      (default-IsTyped, (refl, omega arith), omega arith) refl (omega arith)

decode-incomplete_example :
    decode_packet_from_bytes (0x40 ∷ 2 ∷ 0 ∷ []) v311 ≡ (ok none, 0x40 ∷ 2 ∷ 0 ∷ [])
unfolding encode_remaining_length
decode-incomplete_example =
    decode-incomplete 0x40 7 PacketType.puback (0 ∷ 7 ∷ []) (0x40 ∷ 2 ∷ 0 ∷ []) [] v311 refl
      (omega arith) refl

abbrev traced : Properties
traced = record default {
  message_expiry_interval = some 60;
  topic_alias = some 7;
  user_properties = (bytes "k", bytes "v") ∷ [];
}

abbrev traced_wire : List ℕ
traced_wire = 15 ∷ 2 ∷ 0 ∷ 0 ∷ 0 ∷ 60 ∷ 0x23 ∷ 0 ∷ 7 ∷ 0x26 ∷ 0 ∷ 1 ∷ 107 ∷ 0 ∷ 1 ∷ 118 ∷ []

traced-IsTyped : IsTyped traced
unfolding is_utf8
traced-IsTyped = record {
  message_expiry_interval = omega arith;
  content_type = tt;
  response_topic = tt;
  session_expiry_interval = tt;
  assigned_client_identifier = tt;
  server_keep_alive = tt;
  authentication_method = tt;
  will_delay_interval = tt;
  response_information = tt;
  server_reference = tt;
  reason_string = tt;
  receive_maximum = tt;
  topic_alias_maximum = tt;
  topic_alias = omega arith;
  user_properties = ((refl, refl), tt);
  maximum_packet_size = tt;
}

parse-encode_example : parse (traced_wire ++ (9 ∷ [])) ≡ ok (traced, 9 ∷ [])
unfolding encode write_vbi validate_values encode_remaining_length write_string validate_string
parse-encode_example = parse-encode traced traced_wire (9 ∷ []) traced-IsTyped refl

write-publish_packet_example : write_publish_packet reading v5 ≡ encode_packet (publish reading) v5
write-publish_packet_example = write-publish_packet reading v5 (inr (10, refl))

abbrev nameless : PublishPacket
nameless = record reading { packet_id = none }

-- Two bytes of the payload are read as the identifier.
read-encode_lacking_id_example :
    let misread = record nameless { payload = 3 ∷ []; packet_id = some 258 } in
    let wire : List ℕ = 0x32 ∷ 8 ∷ 0 ∷ 3 ∷ b'a' ∷ b'/' ∷ b'b' ∷ 1 ∷ 2 ∷ 3 ∷ [] in
    ((e : MqttError) × (write_publish_packet nameless v311 ≡ err e))
    × (decode_packet_from_bytes (wire ++ (0xc0 ∷ [])) v311
        ≡ (ok (some (publish misread)), 0xc0 ∷ []))
    × (read_packet (wire ++ (0xc0 ∷ [])) v311 ≡ ok (publish misread, 0xc0 ∷ []))
unfolding encode_packet encode_remaining_length pack_publish_flags is_utf8
read-encode_lacking_id_example =
    read-encode_lacking_id nameless 1 2 (3 ∷ [])
      (0x32 ∷ 8 ∷ 0 ∷ 3 ∷ b'a' ∷ b'/' ∷ b'b' ∷ 1 ∷ 2 ∷ 3 ∷ []) (0xc0 ∷ []) refl refl refl
      (omega arith) (omega arith) refl (refl, omega arith) refl (ground arith)

abbrev at_last : MqttSession
at_last = record Session.new { pkt_counter = 65535 }

allocate_bounds_example :
    let (id, after) = allocate_packet_id at_last in (1 ≤ id) × (id < 2 ^ 16) × IsCounter after
allocate_bounds_example = allocate_bounds at_last

allocate_distinct_example :
    (allocate_packet_id (allocate_many 5 Session.new)).0 ≢ (allocate_packet_id Session.new).0
allocate_distinct_example = allocate_distinct 4 Session.new (omega arith)

allocate_repeats_example :
    (allocate_packet_id (allocate_many 1 at_last)).0 ≡ (allocate_packet_id at_last).0
allocate_repeats_example = allocate_repeats at_last refl

lists_end_example :
    (parse_subscribe (0 ∷ 1 ∷ 0 ∷ 1 ∷ 97 ∷ 1 ∷ []) v311 ≢ err io)
    × (parse_unsubscribe (0 ∷ 1 ∷ 0 ∷ 1 ∷ 97 ∷ 1 ∷ []) v311 ≢ err io)
lists_end_example = lists_end (0 ∷ 1 ∷ 0 ∷ 1 ∷ 97 ∷ 1 ∷ []) v311
