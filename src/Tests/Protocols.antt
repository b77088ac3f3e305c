-- ===== src/Tests/Protocols.antt =====
-- A QoS 2 message on a fresh connection, and an acknowledgement for a waiting task.
use jack_hotaru_mqtt.Base.{◌≡◌, refl, true, false, [], ◌∷◌, bytes, none, some}
use jack_hotaru_mqtt.Codes.QoS.{exactly_once}
use jack_hotaru_mqtt.Properties.{default}
use jack_hotaru_mqtt.Packet
use jack_hotaru_mqtt.Packet.{PublishPacket}
use jack_hotaru_mqtt.Session
use jack_hotaru_mqtt.Session.{AckSlot}
use jack_hotaru_mqtt.Channel
use jack_hotaru_mqtt.Protocol.{Connection, AckKind, incoming_from_packet, fire_ack, pending}
use jack_hotaru_mqtt.Protocol.ExactlyOnce.{Woken, dispatch_all, dispatch_once, fire_ack_once}

abbrev order : PublishPacket
order = record {
  properties = default;
  topic = bytes "o";
  payload = 1 ∷ [];
  dup = false;
  qos = exactly_once;
  retain = false;
  packet_id = some 4;
}

abbrev order_again : PublishPacket
order_again = record order { dup = true }

-- Task 9 waits for the PUBACK of packet 8.
abbrev waiting : Connection
waiting = record {
  channel = record (Channel.new [] 1 Channel.client) {
    session = record Session.new { pending_acks = (8, AckSlot.puback 9) ∷ [] };
  };
  delivered = [];
  dispatched = [];
}

dispatch_once_example :
    let after =
      dispatch_all
        (Packet.publish order ∷ Packet.publish order_again ∷ Packet.pubrel 4 ∷ Packet.pubrel 4 ∷ [])
        waiting in
    (after.dispatched ≡ incoming_from_packet order_again ∷ [])
    × (after.channel.queue
        ≡ Channel.packet (Packet.pubrec 4)
          ∷ Channel.packet (Packet.pubrec 4)
          ∷ Channel.packet (Packet.pubcomp 4)
          ∷ Channel.packet (Packet.pubcomp 4)
          ∷ [])
dispatch_once_example = dispatch_once order order_again 4 waiting refl refl refl refl refl

fire_ack_once_example :
    let after = fire_ack 8 AckKind.puback waiting in
    Woken 8 AckKind.puback (some (AckSlot.puback 9)) [] after.delivered
    × (pending 5 after ≡ none)
    × ((fire_ack 8 AckKind.pubcomp after).delivered ≡ after.delivered)
fire_ack_once_example = fire_ack_once 8 5 AckKind.puback AckKind.pubcomp waiting
