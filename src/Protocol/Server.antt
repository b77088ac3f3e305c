-- ===== src/Protocol/Server.antt =====
-- src/protocol.rs: what the server does with an inbound packet, and `ack_outbound` of src/broker.rs.
-- The connection is named by its id, under which its channel stands in the broker's store.
pub mod Accept
pub mod Loop
pub mod Store
pub mod Once
pub mod Keeps
pub mod Outcome
pub mod Handshake
pub mod Named
pub mod EndToEnd
use jack_hotaru_mqtt.Base.{
  ℕ, Bool, false, List, [], ◌∷◌, ◌++◌, Str, str_eq, Option, none, some, get, remove, map, length,
  replicate,
}
use jack_hotaru_mqtt.Error.{Result, ok, err, protocol, session_already_bound}
use jack_hotaru_mqtt.Codes.QoS.{QoS, exactly_once}
use jack_hotaru_mqtt.Codes.SubackCode.{SubackCode}
use jack_hotaru_mqtt.Request.{PacketId, TopicFilter, IncomingPublish}
use jack_hotaru_mqtt.Packet
use jack_hotaru_mqtt.Packet.{
  Packet, PublishPacket, SubscribePacket, TopicSubscription, UnsubscribePacket,
}
use jack_hotaru_mqtt.Session.{Sender}
use jack_hotaru_mqtt.Channel.{MqttChannel, send_packet}
use jack_hotaru_mqtt.Context.{Core}
use jack_hotaru_mqtt.Broker.State.{
  Broker, SubscriberEntry, on_channel, publish, subscribe, unsubscribe,
}
use jack_hotaru_mqtt.Protocol.{
  Delivery, AckKind, same_id, wakes, drop_ack, drop_inflight, ack_inbound_publish_pre_chain,
}
use jack_hotaru_mqtt.Protocol.Chain.{run_server_chain_then_decide_fanout}

-- The broker with its connections, and what the waiting tasks were sent, oldest first.
pub record Hub : Type 0 where
  pub broker : Broker
  pub delivered : List (Sender × Delivery)

abbrev pub channel_of : ℕ → Hub → MqttChannel
channel_of conn hub = hub.broker.channels conn

abbrev pub with_channel : ℕ → MqttChannel → Hub → Hub
with_channel conn channel hub = record hub { broker = on_channel conn (λ old. channel) hub.broker }

-- A step on the connection's channel.
abbrev pub placed : ℕ → Hub → Result (Unit {0}) × MqttChannel → Result (Unit {0}) × Hub
placed conn hub (r, channel) = (r, with_channel conn channel hub)

abbrev pub send_on : ℕ → Packet → Hub → Result (Unit {0}) × Hub
send_on conn packet hub = placed conn hub (send_packet packet (channel_of conn hub))

-- `ack_outbound`, on the entry of the client.
abbrev pub ack_found : PacketId → Option SubscriberEntry → Hub → Hub
ack_found id none hub = hub
ack_found id (some entry) hub =
    let channel = channel_of entry.channel hub in
    record (with_channel entry.channel (drop_ack id (drop_inflight id channel)) hub) {
      delivered =
          hub.delivered ++ wakes id (get same_id id channel.session.pending_acks) AckKind.puback;
    }

unfoldable pub ack_outbound : Str → PacketId → Hub → Hub
ack_outbound client_id id hub = ack_found id (get str_eq client_id hub.broker.sessions) hub

abbrev pub publish_if : Str → Option PublishPacket → Hub → Hub
publish_if client_id none hub = hub
publish_if client_id (some p) hub = record hub { broker = publish client_id p hub.broker }

-- The packet that is built from a stored publish.
abbrev pub rebuilt : PacketId → IncomingPublish → PublishPacket
rebuilt id stored = record {
  properties = stored.properties;
  topic = stored.topic;
  payload = stored.payload;
  dup = false;
  qos = stored.qos;
  retain = stored.retain;
  packet_id = some id;
}

abbrev pub take_stored : PacketId → MqttChannel → MqttChannel
take_stored id channel = record channel {
  session = record channel.session { qos2_recv = remove same_id id channel.session.qos2_recv };
}

abbrev pub to_filter : TopicSubscription → TopicFilter
to_filter ts = record { filter = ts.topic; qos = ts.qos }

abbrev pub answer_subscribe :
    ℕ → PacketId → List SubackCode × Broker → Hub → Result (Unit {0}) × Hub
answer_subscribe conn id (codes, broker) hub =
    send_on conn (Packet.suback (record { packet_id = id; return_codes = codes }))
      (record hub { broker = broker })

abbrev pub answer_unsubscribe : ℕ → Str → UnsubscribePacket → Hub → Result (Unit {0}) × Hub
answer_unsubscribe conn client_id u hub =
    send_on conn
      (Packet.unsuback
        (record { packet_id = u.packet_id; reason_codes = replicate (length u.topics) 0x00 }))
      (record hub { broker = unsubscribe client_id u.topics hub.broker })

module _ (core : Core) where
  abbrev pub run_and_publish : ℕ → Str → PublishPacket → Hub → Hub
  run_and_publish conn client_id p hub =
      publish_if client_id (run_server_chain_then_decide_fanout core (channel_of conn hub) p) hub

  -- A QoS 2 publish is kept for its PUBREL; another is fanned out.
  abbrev pub after_ack_at : QoS → ℕ → Str → PublishPacket → Hub → Result (Unit {0}) × Hub
  after_ack_at exactly_once conn client_id p hub = (ok tt, hub)
  after_ack_at _ conn client_id p hub = (ok tt, run_and_publish conn client_id p hub)

  abbrev pub after_ack : ℕ → Str → PublishPacket → Result (Unit {0}) × Hub → Result (Unit {0}) × Hub
  after_ack conn client_id p (err e, hub) = (err e, hub)
  after_ack conn client_id p (ok u, hub) = after_ack_at p.qos conn client_id p hub

  abbrev pub release : ℕ → Str → PacketId → Option IncomingPublish → Hub → Hub
  release conn client_id id none hub = hub
  release conn client_id id (some stored) hub =
      run_and_publish conn client_id (rebuilt id stored)
        (with_channel conn (take_stored id (channel_of conn hub)) hub)

  unfoldable pub dispatch_server_inbound : ℕ → Str → Packet → Hub → Result (Unit {0}) × Hub
  unfolding ack_outbound ack_inbound_publish_pre_chain publish subscribe unsubscribe send_packet
      run_server_chain_then_decide_fanout
  dispatch_server_inbound conn client_id (Packet.publish p) hub =
      after_ack conn client_id p
        (placed conn hub (ack_inbound_publish_pre_chain p (channel_of conn hub)))
  dispatch_server_inbound conn client_id (Packet.subscribe s) hub =
      answer_subscribe conn s.packet_id
        (subscribe client_id (map to_filter s.subscriptions) hub.broker) hub
  dispatch_server_inbound conn client_id (Packet.unsubscribe u) hub =
      answer_unsubscribe conn client_id u hub
  dispatch_server_inbound conn client_id Packet.pingreq hub = send_on conn Packet.pingresp hub
  dispatch_server_inbound conn client_id (Packet.puback id) hub =
      (ok tt, ack_outbound client_id id hub)
  dispatch_server_inbound conn client_id (Packet.pubrec id) hub =
      send_on conn (Packet.pubrel id) hub
  dispatch_server_inbound conn client_id (Packet.pubcomp id) hub =
      (ok tt, ack_outbound client_id id hub)
  dispatch_server_inbound conn client_id (Packet.pubrel id) hub =
      let stored = get same_id id (channel_of conn hub).session.qos2_recv in
      send_on conn (Packet.pubcomp id) (release conn client_id id stored hub)
  dispatch_server_inbound conn client_id (Packet.connect c) hub =
      (err (protocol session_already_bound), hub)
  dispatch_server_inbound conn client_id _ hub = (ok tt, hub)
