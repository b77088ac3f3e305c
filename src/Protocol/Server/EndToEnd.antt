-- ===== src/Protocol/Server/EndToEnd.antt =====
-- A SUBSCRIBE on one connection and a PUBLISH on another, as the server handles them.
use jack_hotaru_mqtt.Base.{
  Any-left, ℕ, ◌≡◌, ◌≢◌, refl, subst, sym, ◌∙◌, ap, true, [], ◌∷◌, ◌++◌, Str, str_eq, str_eq_refl,
  split, some, get, Any,
}
use jack_hotaru_mqtt.Error.{Result, ok}
use jack_hotaru_mqtt.Codes.QoS.{QoS, at_least_once}
use jack_hotaru_mqtt.Codes.SubackCode.{granted}
use jack_hotaru_mqtt.Topic.{validate_subscribe_filter}
use jack_hotaru_mqtt.Request.{PacketId}
use jack_hotaru_mqtt.Packet.{Packet, PublishPacket, TopicSubscription}
use jack_hotaru_mqtt.Channel
use jack_hotaru_mqtt.Channel.{MqttChannel, WriteCmd, send_packet}
use jack_hotaru_mqtt.Context.{Core}
use jack_hotaru_mqtt.Broker.Filter.{filter_matches}
use jack_hotaru_mqtt.Broker.Tree.Laws.{sub_of}
use jack_hotaru_mqtt.Broker.Tree.Matching.{matching-finds}
use jack_hotaru_mqtt.Broker.State.{Broker, SubscriberEntry, publish, subscribe}
use jack_hotaru_mqtt.Broker.State.Subscribe.{subscribe_granted}
use jack_hotaru_mqtt.Broker.State.Reach.{Queued, publish_reaches, Any-append_last}
use jack_hotaru_mqtt.Broker.State.Fanout.{publish-Delivered}
use jack_hotaru_mqtt.Broker.State.EndToEnd.{subscribe-entry, same_channels, asked_once}
use jack_hotaru_mqtt.Protocol.{ack_inbound_publish_pre_chain}
use jack_hotaru_mqtt.Protocol.Chain.{run_server_chain_then_decide_fanout}
use jack_hotaru_mqtt.Protocol.Server.{
  Hub, channel_of, with_channel, placed, publish_if, after_ack, after_ack_at, to_filter,
  dispatch_server_inbound,
}
use jack_hotaru_mqtt.Protocol.Server.Store.{
  channel_of-same, channel_of-other, queued, send_packet-queued,
}

-- The SUBSCRIBE with one filter.
abbrev pub subscribe_packet : PacketId → TopicSubscription → Packet
subscribe_packet id ts = Packet.subscribe (record { packet_id = id; subscriptions = ts ∷ [] })

module _ (core : Core) (a b : ℕ) (client_id source : Str) (hub : Hub) where
  abbrev subscribed : PacketId → TopicSubscription → Hub
  subscribed id ts = (dispatch_server_inbound core a client_id (subscribe_packet id ts) hub).1

  subscribed_tree :
      (id : PacketId) (ts : TopicSubscription)
      → let after = (subscribe client_id (to_filter ts ∷ []) hub.broker).1 in
        ((subscribed id ts).broker.sessions ≡ after.sessions)
        × ((subscribed id ts).broker.subscriptions ≡ after.subscriptions)
  unfolding dispatch_server_inbound
  subscribed_tree id ts = (refl, refl)

  subscribed_channel :
      (id : PacketId) (ts : TopicSubscription)
      → (channel_of a hub).listening ≡ true
      → channel_of a (subscribed id ts)
        ≡ queued
            (Channel.packet (
              Packet.suback (record {
                packet_id = id;
                return_codes = (subscribe client_id (to_filter ts ∷ []) hub.broker).0;
              })))
            (channel_of a hub)
  unfolding dispatch_server_inbound
  subscribed_channel id ts listens =
      let (codes, broker) = subscribe client_id (to_filter ts ∷ []) hub.broker in
      let here : broker.channels a ≡ channel_of a hub =
        ap (λ (channels : ℕ → MqttChannel). channels a)
          (same_channels client_id (to_filter ts ∷ []) hub.broker) in
      let answer = Packet.suback (record { packet_id = id; return_codes = codes }) in
      channel_of-same a (send_packet answer (broker.channels a)).1 (record hub { broker = broker })
      ∙ (ap (λ (channel : MqttChannel). (send_packet answer channel).1) here
          ∙ ap (λ (r : Result (Unit {0}) × MqttChannel). r.1)
              (send_packet-queued answer (channel_of a hub) listens))

  subscribed_other :
      (id : PacketId) (ts : TopicSubscription)
      → b ≢ a
      → channel_of b (subscribed id ts) ≡ channel_of b hub
  unfolding dispatch_server_inbound
  subscribed_other id ts differ =
      let (codes, broker) = subscribe client_id (to_filter ts ∷ []) hub.broker in
      channel_of-other b a _ (record hub { broker = broker }) differ
      ∙ ap (λ (channels : ℕ → MqttChannel). channels b)
          (same_channels client_id (to_filter ts ∷ []) hub.broker)

  acked :
      (p : PublishPacket) (id : PacketId) (channel : MqttChannel)
      → p.qos ≡ at_least_once
      → p.packet_id ≡ some id
      → channel.listening ≡ true
      → ack_inbound_publish_pre_chain p channel
        ≡ (ok tt, queued (Channel.packet (Packet.puback id)) channel)
  unfolding ack_inbound_publish_pre_chain
  acked p id channel q i listens = rw (q, i) (send_packet-queued (Packet.puback id) channel listens)

  abbrev acknowledged : PacketId → Hub
  acknowledged id =
      with_channel b (queued (Channel.packet (Packet.puback id)) (channel_of b hub)) hub

  published_hub :
      (p last : PublishPacket) (id : PacketId)
      → p.qos ≡ at_least_once
      → p.packet_id ≡ some id
      → (channel_of b hub).listening ≡ true
      → ((channel : MqttChannel) → run_server_chain_then_decide_fanout core channel p ≡ some last)
      → (dispatch_server_inbound core b source (Packet.publish p) hub).1.broker
        ≡ publish source last (acknowledged id).broker
  unfolding dispatch_server_inbound
  published_hub p last id q i listens passes =
      let run = passes (channel_of b (acknowledged id)) in
      ap
        (λ (r : Result (Unit {0}) × MqttChannel).
          (after_ack core b source p (placed b hub r)).1.broker)
        (acked p id (channel_of b hub) q i listens)
      ∙ (ap (λ (k : QoS). (after_ack_at core k b source p (acknowledged id)).1.broker) q
          ∙ ap (λ found. (publish_if source found (acknowledged id)).broker) run)

-- Two clients on two connections, both of them being written. One, with a session, subscribes with a
-- valid filter; then the other publishes with QoS 1, and the chain at the publish's endpoints lets it
-- pass as `last`, to a topic that the filter matches. The SUBACK grants the QoS that was asked for and
-- stands next in the subscriber's queue, the PUBACK stands in the publisher's, and a copy of `last`, with
-- the smaller of the two QoS, in the subscriber's.
pub subscribe-publish_served :
    (core : Core) (a b : ℕ) (client_id source : Str) (hub : Hub) (entry : SubscriberEntry)
    (id id' : PacketId) (ts : TopicSubscription) (p last : PublishPacket)
    → get str_eq client_id hub.broker.sessions ≡ some entry
    → entry.channel ≡ a
    → a ≢ b
    → client_id ≢ source
    → (channel_of a hub).listening ≡ true
    → (channel_of b hub).listening ≡ true
    → validate_subscribe_filter ts.topic ≡ ok tt
    → p.qos ≡ at_least_once
    → p.packet_id ≡ some id'
    → ((channel : MqttChannel) → run_server_chain_then_decide_fanout core channel p ≡ some last)
    → filter_matches ts.topic (split last.topic) ≡ true
    → let subscribed = (dispatch_server_inbound core a client_id (subscribe_packet id ts) hub).1 in
      let after = (dispatch_server_inbound core b source (Packet.publish p) subscribed).1 in
      ((channel_of a subscribed).queue
        ≡ (channel_of a hub).queue
          ++ (Channel.packet
                (Packet.suback (record { packet_id = id; return_codes = granted ts.qos ∷ [] }))
              ∷ []))
      × Any (λ cmd. cmd ≡ Channel.packet (Packet.puback id')) (channel_of b after).queue
      × Queued last ts.qos (channel_of a after)
subscribe-publish_served core a b client_id source hub entry id id' ts p last e at differ other
      listens listens' valid q i passes matches =
    let tf = to_filter ts in
    let asking = (subscribe client_id (tf ∷ []) hub.broker).1 in
    let next = (dispatch_server_inbound core a client_id (subscribe_packet id ts) hub).1 in
    let acked = acknowledged core a b client_id source next id' in
    let answer = subscribed_channel core a b client_id source hub id ts listens in
    let (sessions, tree) = subscribed_tree core a b client_id source hub id ts in
    let (codes, entries) = subscribe_granted client_id (tf ∷ []) hub.broker entry e in
    let (entry', e', same) = subscribe-entry client_id (tf ∷ []) hub.broker entry e in
    let sent : (channel_of b next).listening ≡ true =
      ap (λ (c : MqttChannel). c.listening)
        (subscribed_other core a b client_id source hub id ts (λ e. differ (sym e)))
      ∙ listens' in
    let run = published_hub core a b client_id source next p last id' q i sent passes in
    let own : sub_of tf.filter client_id asking.subscriptions ≡ some tf.qos =
      entries tf.filter client_id ∙ rw (str_eq_refl client_id) (asked_once tf _ valid) in
    let copy : Queued last ts.qos ((publish source last acked.broker).channels a) =
      publish_reaches source last client_id ts.qos acked.broker a
        (matching-finds acked.broker.subscriptions last.topic tf.filter client_id ts.qos matches
          (rw tree own))
        (other, entry', rw sessions e', same ∙ at)
        (rw (channel_of-other a b _ next differ)
          (ap (λ (c : MqttChannel). c.listening) answer ∙ listens)) in
    let told : Any (λ cmd. cmd ≡ Channel.packet (Packet.puback id'))
        ((publish source last acked.broker).channels b).queue =
      rw ((publish-Delivered source last acked.broker b).queued, channel_of-same b _ next)
        (Any-left _ _ _ (Any-append_last _ (channel_of b next).queue _ refl)) in
    (
      ap (λ (c : MqttChannel). c.queue) answer ∙ rw (codes, valid) refl,
      subst
          (λ (broker : Broker).
            Any (λ cmd. cmd ≡ Channel.packet (Packet.puback id')) (broker.channels b).queue)
          (sym run) told,
      subst (λ (broker : Broker). Queued last ts.qos (broker.channels a)) (sym run) copy,
    )
