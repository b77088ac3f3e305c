-- ===== src/Protocol/Server/Keeps.antt =====
-- What every packet that the server handles leaves intact: the reachable states, and the session.
use jack_hotaru_mqtt.Base.{ℕ, ◌≡◌, List, Str, str_eq, str_eq_refl, Option, none, some, get, map}
use jack_hotaru_mqtt.Error.{Result, ok, err}
use jack_hotaru_mqtt.Codes.QoS.{QoS, at_most_once, at_least_once, exactly_once}
use jack_hotaru_mqtt.Request.{PacketId, TopicFilter, IncomingPublish}
use jack_hotaru_mqtt.Packet.{Packet, PublishPacket}
use jack_hotaru_mqtt.Channel.{MqttChannel}
use jack_hotaru_mqtt.Context.{Core}
use jack_hotaru_mqtt.Broker.State.{
  Broker, SubscriberEntry, subscribe, unsubscribe, publish, unsubscribe_all,
}
use jack_hotaru_mqtt.Broker.State.Owned.{publish-keeps}
use jack_hotaru_mqtt.Broker.State.EndToEnd.{subscribe-entry}
use jack_hotaru_mqtt.Broker.State.Reachable.{Reachable, moved, published, subscribed, unsubscribed}
use jack_hotaru_mqtt.Protocol.{same_id}
use jack_hotaru_mqtt.Protocol.Chain.{run_server_chain_then_decide_fanout}
use jack_hotaru_mqtt.Protocol.Server.{
  Hub, to_filter, with_channel, ack_found, ack_outbound, publish_if, run_and_publish, after_ack,
  after_ack_at, release, rebuilt, take_stored, channel_of, dispatch_server_inbound,
}

abbrev pub HasSession : Str → Broker → Type 0
HasSession client_id broker =
    (entry : SubscriberEntry) × (get str_eq client_id broker.sessions ≡ some entry)

-- From one broker to another: a reachable state stays one, and the client keeps its session.
pub record Kept (client_id : Str) (before after : Broker) : Type 0 where
  pub reaches : Reachable before → Reachable after
  pub session : HasSession client_id before → HasSession client_id after

same : (client_id : Str) (broker : Broker) → Kept client_id broker broker
same client_id broker = record { reaches = λ r. r; session = λ s. s }

pub and_then :
    (client_id : Str) (a b c : Broker)
    → Kept client_id a b
    → Kept client_id b c
    → Kept client_id a c
and_then client_id a b c k l = record {
  reaches = λ r. l.reaches (k.reaches r);
  session = λ s. l.session (k.session s);
}

pub with_channel-Kept :
    (client_id : Str) (conn : ℕ) (channel : MqttChannel) (hub : Hub)
    → Kept client_id hub.broker (with_channel conn channel hub).broker
with_channel-Kept client_id conn channel hub = record { reaches = moved _; session = λ s. s }

publish-Kept :
    (client_id source : Str) (p : PublishPacket) (broker : Broker)
    → Kept client_id broker (publish source p broker)
publish-Kept client_id source p broker = record {
  reaches = published source p;
  session = λ (entry, e). (entry, rw (publish-keeps source p broker).0 e);
}

publish_if-Kept :
    (client_id source : Str) (p : Option PublishPacket) (hub : Hub)
    → Kept client_id hub.broker (publish_if source p hub).broker
publish_if-Kept client_id source none hub = same client_id hub.broker
publish_if-Kept client_id source (some p) hub = publish-Kept client_id source p hub.broker

subscribe-Kept :
    (client_id : Str) (filters : List TopicFilter) (broker : Broker)
    → Kept client_id broker (subscribe client_id filters broker).1
subscribe-Kept client_id filters broker = record {
  reaches = subscribed client_id filters;
  session = λ (entry, e).
      let (after, found, here) = subscribe-entry client_id filters broker entry e in (after, found);
}

unsubscribe-session :
    (client_id : Str) (topics : List Str) (broker : Broker)
    → HasSession client_id broker
    → HasSession client_id (unsubscribe client_id topics broker)
unfolding unsubscribe
unsubscribe-session client_id topics broker (entry, e) = (
  record entry {
    filters = (unsubscribe_all client_id topics entry.filters broker.subscriptions).0;
  },
  rw (e, str_eq_refl client_id),
)

unsubscribe-Kept :
    (client_id : Str) (topics : List Str) (broker : Broker)
    → Kept client_id broker (unsubscribe client_id topics broker)
unsubscribe-Kept client_id topics broker = record {
  reaches = unsubscribed client_id topics;
  session = unsubscribe-session client_id topics broker;
}

ack_found-Kept :
    (client_id : Str) (id : PacketId) (found : Option SubscriberEntry) (hub : Hub)
    → Kept client_id hub.broker (ack_found id found hub).broker
ack_found-Kept client_id id none hub = same client_id hub.broker
ack_found-Kept client_id id (some entry) hub = with_channel-Kept client_id entry.channel _ hub

ack_outbound-Kept :
    (client_id source : Str) (id : PacketId) (hub : Hub)
    → Kept client_id hub.broker (ack_outbound source id hub).broker
unfolding ack_outbound
ack_outbound-Kept client_id source id hub =
    ack_found-Kept client_id id (get str_eq source hub.broker.sessions) hub

module _ (core : Core) (conn : ℕ) (client_id : Str) where
  run-Kept :
      (p : PublishPacket) (hub : Hub)
      → Kept client_id hub.broker (run_and_publish core conn client_id p hub).broker
  run-Kept p hub =
      publish_if-Kept client_id client_id
        (run_server_chain_then_decide_fanout core (channel_of conn hub) p) hub

  acked_at-Kept :
      (q : QoS) (p : PublishPacket) (hub : Hub)
      → Kept client_id hub.broker (after_ack_at core q conn client_id p hub).1.broker
  acked_at-Kept exactly_once p hub = same client_id hub.broker
  acked_at-Kept at_most_once p hub = run-Kept p hub
  acked_at-Kept at_least_once p hub = run-Kept p hub

  acked-Kept :
      (p : PublishPacket) (r : Result (Unit {0})) (hub : Hub)
      → Kept client_id hub.broker (after_ack core conn client_id p (r, hub)).1.broker
  acked-Kept p (err e) hub = same client_id hub.broker
  acked-Kept p (ok u) hub = acked_at-Kept p.qos p hub

  release-Kept :
      (id : PacketId) (stored : Option IncomingPublish) (hub : Hub)
      → Kept client_id hub.broker (release core conn client_id id stored hub).broker
  release-Kept id none hub = same client_id hub.broker
  release-Kept id (some stored) hub =
      let taken = with_channel conn (take_stored id (channel_of conn hub)) hub in
      and_then client_id hub.broker taken.broker _
        (with_channel-Kept client_id conn (take_stored id (channel_of conn hub)) hub)
        (run-Kept (rebuilt id stored) taken)

  -- Every packet.
  pub dispatch-Kept :
      (packet : Packet) (hub : Hub)
      → Kept client_id hub.broker (dispatch_server_inbound core conn client_id packet hub).1.broker
  unfolding dispatch_server_inbound
  dispatch-Kept (Packet.publish p) hub =
      and_then client_id hub.broker _ _ (with_channel-Kept client_id conn _ hub)
        (acked-Kept p _ (with_channel conn _ hub))
  dispatch-Kept (Packet.subscribe s) hub =
      and_then client_id hub.broker _ _ (subscribe-Kept client_id _ hub.broker) (
        with_channel-Kept client_id conn _ (record hub {
          broker = (subscribe client_id (map to_filter s.subscriptions) hub.broker).1;
        }))
  dispatch-Kept (Packet.unsubscribe u) hub =
      and_then client_id hub.broker _ _ (unsubscribe-Kept client_id u.topics hub.broker) (
        with_channel-Kept client_id conn _
          (record hub { broker = unsubscribe client_id u.topics hub.broker }))
  dispatch-Kept Packet.pingreq hub = with_channel-Kept client_id conn _ hub
  dispatch-Kept (Packet.puback id) hub = ack_outbound-Kept client_id client_id id hub
  dispatch-Kept (Packet.pubrec id) hub = with_channel-Kept client_id conn _ hub
  dispatch-Kept (Packet.pubcomp id) hub = ack_outbound-Kept client_id client_id id hub
  dispatch-Kept (Packet.pubrel id) hub =
      and_then client_id hub.broker _ _
        (release-Kept id (get same_id id (channel_of conn hub).session.qos2_recv) hub)
        (with_channel-Kept client_id conn _ (
          release core conn client_id id (get same_id id (channel_of conn hub).session.qos2_recv)
            hub))
  dispatch-Kept (Packet.connect c) hub = same client_id hub.broker
  dispatch-Kept (Packet.connack c) hub = same client_id hub.broker
  dispatch-Kept (Packet.suback s) hub = same client_id hub.broker
  dispatch-Kept (Packet.unsuback u) hub = same client_id hub.broker
  dispatch-Kept Packet.pingresp hub = same client_id hub.broker
  dispatch-Kept Packet.disconnect hub = same client_id hub.broker
