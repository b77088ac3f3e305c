-- ===== src/Protocol.antt =====
-- src/protocol.rs: what a client does with an inbound packet. Finding the endpoints of a topic and
-- running their chains is hotaru_core's; here a dispatch is recorded with the publish that is handed
-- over. A send on a oneshot channel is recorded with the task that waits.
pub mod Chain
pub mod ExactlyOnce
pub mod Instance
pub mod Requests
pub mod Server
pub mod Client
use jack_hotaru_mqtt.Base.{
  ℕ, ◌==◌, Bool, true, false, List, [], ◌∷◌, ◌++◌, Option, none, some, get, remove, insert,
}
use jack_hotaru_mqtt.Error.{MqttError, Result, ok, err}
use jack_hotaru_mqtt.Codes.QoS.{QoS, at_most_once, at_least_once, exactly_once}
use jack_hotaru_mqtt.Codes.SubackCode.{SubackCode}
use jack_hotaru_mqtt.Request.{PacketId, IncomingPublish}
use jack_hotaru_mqtt.Packet
use jack_hotaru_mqtt.Packet.{Packet, PublishPacket}
use jack_hotaru_mqtt.Session
use jack_hotaru_mqtt.Session.{AckSlot, Sender}
use jack_hotaru_mqtt.Channel.{MqttChannel, send_packet}

abbrev pub same_id : PacketId → PacketId → Bool
same_id a b = a == b

pub data Delivery : Type 0 where
  packet_id : PacketId → Delivery
  codes : List SubackCode → Delivery
  done : Delivery

-- The channel, what the waiting tasks were sent, and what was handed to the endpoints, oldest first.
pub record Connection : Type 0 where
  pub channel : MqttChannel
  pub delivered : List (Sender × Delivery)
  pub dispatched : List IncomingPublish

pub data AckKind : Type 0 where
  puback pubrec pubcomp : AckKind

abbrev pub incoming_from_packet : PublishPacket → IncomingPublish
incoming_from_packet p = record {
  properties = p.properties;
  topic = p.topic;
  payload = p.payload;
  qos = p.qos;
  retain = p.retain;
  dup = p.dup;
  packet_id = p.packet_id;
}

abbrev pub stash : PacketId → PublishPacket → MqttChannel → MqttChannel
stash id p channel = record channel {
  session = record channel.session {
    qos2_recv = insert same_id id (incoming_from_packet p) channel.session.qos2_recv;
  };
}

abbrev pub ack_with :
    QoS → Option PacketId → PublishPacket → MqttChannel → Result (Unit {0}) × MqttChannel
ack_with at_most_once id p channel = (ok tt, channel)
ack_with at_least_once none p channel = (ok tt, channel)
ack_with at_least_once (some id) p channel = send_packet (Packet.puback id) channel
ack_with exactly_once none p channel = (ok tt, channel)
ack_with exactly_once (some id) p channel = send_packet (Packet.pubrec id) (stash id p channel)

unfoldable pub ack_inbound_publish_pre_chain :
    PublishPacket → MqttChannel → Result (Unit {0}) × MqttChannel
unfolding send_packet
ack_inbound_publish_pre_chain p channel = ack_with p.qos p.packet_id p channel

-- The match on the removed slot and the kind.
abbrev pub wakes : PacketId → Option AckSlot → AckKind → List (Sender × Delivery)
wakes id (some (AckSlot.puback tx)) puback = (tx, packet_id id) ∷ []
wakes id (some (AckSlot.pubrec tx)) pubrec = (tx, packet_id id) ∷ []
wakes id (some (AckSlot.pubcomp tx)) pubcomp = (tx, packet_id id) ∷ []
wakes id _ kind = []

abbrev pub drop_ack : PacketId → MqttChannel → MqttChannel
drop_ack id channel = record channel {
  session = record channel.session {
    pending_acks = remove same_id id channel.session.pending_acks;
  };
}

abbrev pub drop_inflight : PacketId → MqttChannel → MqttChannel
drop_inflight id channel = record channel {
  session = record channel.session {
    outbound_inflight = remove same_id id channel.session.outbound_inflight;
  };
}

abbrev pub pending : PacketId → Connection → Option AckSlot
pending id c = get same_id id c.channel.session.pending_acks

unfoldable pub fire_ack : PacketId → AckKind → Connection → Connection
fire_ack id kind c = record c {
  channel = drop_ack id c.channel;
  delivered = c.delivered ++ wakes id (pending id c) kind;
}

abbrev pub suback_wakes : List SubackCode → Option AckSlot → List (Sender × Delivery)
suback_wakes return_codes (some (AckSlot.suback tx)) = (tx, codes return_codes) ∷ []
suback_wakes return_codes _ = []

unfoldable pub fire_suback : PacketId → List SubackCode → Connection → Connection
fire_suback id return_codes c = record c {
  channel = drop_ack id c.channel;
  delivered = c.delivered ++ suback_wakes return_codes (pending id c);
}

abbrev pub unsuback_wakes : Option AckSlot → List (Sender × Delivery)
unsuback_wakes (some (AckSlot.unsuback tx)) = (tx, done) ∷ []
unsuback_wakes _ = []

unfoldable pub fire_unsuback : PacketId → Connection → Connection
fire_unsuback id c = record c {
  channel = drop_ack id c.channel;
  delivered = c.delivered ++ unsuback_wakes (pending id c);
}

-- `..?; Ok(false)` after a step on the channel.
abbrev pub then_false : Connection → Result (Unit {0}) × MqttChannel → Result Bool × Connection
then_false c (ok u, channel) = (ok false, record c { channel = channel })
then_false c (err e, channel) = (err e, record c { channel = channel })

-- A QoS 2 publish is kept for its PUBREL; another is dispatched once it is acknowledged.
abbrev pub after_ack :
    PublishPacket → Connection → Result (Unit {0}) × MqttChannel → Result Bool × Connection
after_ack p c (err e, channel) = (err e, record c { channel = channel })
after_ack p c (ok u, channel) = elim p.qos [
  | exactly_once ↦ (ok false, record c { channel = channel })
  | _ ↦ (
    ok false,
    record c { channel = channel; dispatched = c.dispatched ++ (incoming_from_packet p ∷ []) },
  )
]

abbrev pub released : PacketId → Option IncomingPublish → Connection → Connection
released id none c = c
released id (some incoming) c = record c {
  channel = record c.channel {
    session = record c.channel.session {
      qos2_recv = remove same_id id c.channel.session.qos2_recv;
    };
  };
  dispatched = c.dispatched ++ (incoming ∷ []);
}

-- The answer is whether the loop ends.
unfoldable pub dispatch_client_inbound : Packet → Connection → Result Bool × Connection
unfolding ack_inbound_publish_pre_chain fire_ack fire_suback fire_unsuback send_packet
dispatch_client_inbound (Packet.publish p) c =
    after_ack p c (ack_inbound_publish_pre_chain p c.channel)
dispatch_client_inbound (Packet.puback id) c =
    let fired = fire_ack id AckKind.puback c in
    (ok false, record fired { channel = drop_inflight id fired.channel })
dispatch_client_inbound (Packet.pubrec id) c =
    let fired = fire_ack id AckKind.pubrec c in
    then_false fired (send_packet (Packet.pubrel id) fired.channel)
dispatch_client_inbound (Packet.pubcomp id) c =
    let fired = fire_ack id AckKind.pubcomp c in
    (ok false, record fired { channel = drop_inflight id fired.channel })
dispatch_client_inbound (Packet.pubrel id) c =
    let after = released id (get same_id id c.channel.session.qos2_recv) c in
    then_false after (send_packet (Packet.pubcomp id) after.channel)
dispatch_client_inbound (Packet.suback s) c = (ok false, fire_suback s.packet_id s.return_codes c)
dispatch_client_inbound (Packet.unsuback u) c = (ok false, fire_unsuback u.packet_id c)
dispatch_client_inbound Packet.disconnect c = (ok true, c)
dispatch_client_inbound _ c = (ok false, c)
