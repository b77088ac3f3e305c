-- ===== src/Protocol/Server/Once.antt =====
-- QoS 2 between a publishing client and the server.
use jack_hotaru_mqtt.Base.{
  ==_refl, ℕ, ◌≡◌, ◌≢◌, refl, ◌∙◌, ap, true, false, [], ◌∷◌, ◌++◌, Str, Option, none, some, get,
  get-remove_same,
}
use jack_hotaru_mqtt.Error.{Result, ok}
use jack_hotaru_mqtt.Codes.QoS.{QoS, exactly_once}
use jack_hotaru_mqtt.Request.{PacketId, IncomingPublish}
use jack_hotaru_mqtt.Packet.{Packet, PublishPacket}
use jack_hotaru_mqtt.Channel
use jack_hotaru_mqtt.Channel.{MqttChannel, WriteCmd, send_packet}
use jack_hotaru_mqtt.Context.{Core}
use jack_hotaru_mqtt.Broker.State.Fanout.{publish-Delivered}
use jack_hotaru_mqtt.Protocol.{
  same_id, stash, ack_with, incoming_from_packet, ack_inbound_publish_pre_chain,
}
use jack_hotaru_mqtt.Protocol.Chain.{run_server_chain_then_decide_fanout}
use jack_hotaru_mqtt.Protocol.Server.{
  Hub, channel_of, with_channel, placed, send_on, publish_if, run_and_publish, after_ack,
  after_ack_at, rebuilt, take_stored, dispatch_server_inbound,
}
use jack_hotaru_mqtt.Protocol.Server.Store.{
  channel_of-same, channel_of-other, queued, send_packet-queued,
}

abbrev stored : ℕ → PacketId → Hub → Option IncomingPublish
stored conn id hub = get same_id id (channel_of conn hub).session.qos2_recv

-- What a packet makes of the connection: it is answered, other connections are as in `fanned`, and this
-- is kept under the identifier.
record Handled (conn : ℕ) (id : PacketId) (answer : Packet) (kept : Option IncomingPublish)
    (fanned after : Hub) : Type 0 where
  queue :
      (channel_of conn after).queue ≡ (channel_of conn fanned).queue ++ (Channel.packet answer ∷ [])
  keeps : stored conn id after ≡ kept
  listens : (channel_of conn after).listening ≡ true
  others : (other : ℕ) → other ≢ conn → channel_of other after ≡ channel_of other fanned

-- An answer on a connection that is being written.
answered :
    (conn : ℕ) (id : PacketId) (answer : Packet) (hub : Hub)
    → (channel_of conn hub).listening ≡ true
    → Handled conn id answer (stored conn id hub) hub (send_on conn answer hub).1
answered conn id answer hub listens =
    let next = (send_packet answer (channel_of conn hub)).1 in
    let same : channel_of conn (send_on conn answer hub).1
        ≡ queued (Channel.packet answer) (channel_of conn hub) =
      channel_of-same conn next hub
      ∙ ap (λ (r : Result (Unit {0}) × MqttChannel). r.1)
          (send_packet-queued answer (channel_of conn hub) listens) in
    record {
      queue = ap (λ (c : MqttChannel). c.queue) same;
      keeps = ap (λ (c : MqttChannel). get same_id id c.session.qos2_recv) same;
      listens = ap (λ (c : MqttChannel). c.listening) same ∙ listens;
      others = λ other differ. channel_of-other other conn next hub differ;
    }

-- The connection's own store and writer are not touched by a fan-out.
untouched :
    (source : Str) (found : Option PublishPacket) (hub : Hub) (conn : ℕ)
    → let after = channel_of conn (publish_if source found hub) in
      (after.session.qos2_recv ≡ (channel_of conn hub).session.qos2_recv)
      × (after.listening ≡ (channel_of conn hub).listening)
untouched source none hub conn = (refl, refl)
untouched source (some p) hub conn =
    let d = publish-Delivered source p hub.broker conn in (d.same_recv, d.same_listening)

module _ (core : Core) (conn : ℕ) (client_id : Str) (id : PacketId) where
  abbrev kept_channel : PublishPacket → MqttChannel → MqttChannel
  kept_channel p channel = queued (Channel.packet (Packet.pubrec id)) (stash id p channel)

  stashed_hub :
      (p : PublishPacket) (hub : Hub)
      → p.qos ≡ exactly_once
      → p.packet_id ≡ some id
      → (channel_of conn hub).listening ≡ true
      → (dispatch_server_inbound core conn client_id (Packet.publish p) hub).1
        ≡ with_channel conn (kept_channel p (channel_of conn hub)) hub
  unfolding dispatch_server_inbound
  stashed_hub p hub q i listens =
      let acked : ack_inbound_publish_pre_chain p (channel_of conn hub)
          ≡ (ok tt, kept_channel p (channel_of conn hub)) =
        unfold ack_inbound_publish_pre_chain in
        ap (λ (k : QoS). ack_with k p.packet_id p (channel_of conn hub)) q
        ∙ (ap (λ (j : Option PacketId). ack_with exactly_once j p (channel_of conn hub)) i
            ∙ send_packet-queued (Packet.pubrec id) (stash id p (channel_of conn hub)) listens) in
      ap
        (λ (r : Result (Unit {0}) × MqttChannel).
          (after_ack core conn client_id p (placed conn hub r)).1)
        acked
      ∙ ap
          (λ (k : QoS).
            (after_ack_at core k conn client_id p
              (with_channel conn (kept_channel p (channel_of conn hub)) hub)).1)
          q

  Handled-publish :
      (p : PublishPacket) (hub : Hub)
      → p.qos ≡ exactly_once
      → p.packet_id ≡ some id
      → (channel_of conn hub).listening ≡ true
      → Handled conn id
          (Packet.pubrec id)
          (some (incoming_from_packet p))
          hub
          (dispatch_server_inbound core conn client_id (Packet.publish p) hub).1
  Handled-publish p hub q i listens =
      let channel = kept_channel p (channel_of conn hub) in
      let same = channel_of-same conn channel hub in
      rw (stashed_hub p hub q i listens) (record {
        queue = ap (λ (c : MqttChannel). c.queue) same;
        keeps =
            ap (λ (c : MqttChannel). get same_id id c.session.qos2_recv) same
            ∙ rw (==_refl id) refl;
        listens = ap (λ (c : MqttChannel). c.listening) same ∙ listens;
        others = λ other differ. channel_of-other other conn channel hub differ;
      })

  -- The publish leaves the store, and is fanned out as its chain lets it pass.
  abbrev pub fanned : PublishPacket → Hub → Hub
  fanned packet hub =
      run_and_publish core conn client_id packet
        (with_channel conn (take_stored id (channel_of conn hub)) hub)

  Handled-release :
      (incoming : IncomingPublish) (hub : Hub)
      → stored conn id hub ≡ some incoming
      → (channel_of conn hub).listening ≡ true
      → Handled conn id
          (Packet.pubcomp id)
          none
          (fanned (rebuilt id incoming) hub)
          (dispatch_server_inbound core conn client_id (Packet.pubrel id) hub).1
  unfolding dispatch_server_inbound
  Handled-release incoming hub e listens =
      let taken = with_channel conn (take_stored id (channel_of conn hub)) hub in
      let same = channel_of-same conn (take_stored id (channel_of conn hub)) hub in
      let (recv, listening) =
        untouched client_id
          (run_server_chain_then_decide_fanout core (channel_of conn taken) (rebuilt id incoming))
          taken conn in
      let sent =
        answered conn id (Packet.pubcomp id) (fanned (rebuilt id incoming) hub)
          (listening ∙ (ap (λ (c : MqttChannel). c.listening) same ∙ listens)) in
      rw e (record {
        queue = sent.queue;
        keeps =
            sent.keeps
            ∙ (ap (get same_id id) recv
                ∙ (ap (λ (c : MqttChannel). get same_id id c.session.qos2_recv) same
                    ∙ get-remove_same same_id id (channel_of conn hub).session.qos2_recv));
        listens = sent.listens;
        others = sent.others;
      })

  Handled-repeat :
      (hub : Hub)
      → stored conn id hub ≡ none
      → (channel_of conn hub).listening ≡ true
      → Handled conn id
          (Packet.pubcomp id)
          none
          hub
          (dispatch_server_inbound core conn client_id (Packet.pubrel id) hub).1
  unfolding dispatch_server_inbound
  Handled-repeat hub e listens =
      let sent = answered conn id (Packet.pubcomp id) hub listens in
      rw e (record {
        queue = sent.queue;
        keeps = sent.keeps ∙ e;
        listens = sent.listens;
        others = sent.others;
      })

  -- A QoS 2 publish on a connection that is being written is answered with a PUBREC and reaches no other
  -- connection; its PUBREL brings one fan-out of it, without the DUP flag, as its chain lets it pass, and
  -- a PUBCOMP; a second PUBREL brings a PUBCOMP and reaches no other connection.
  pub released_once :
      (p : PublishPacket) (hub : Hub)
      → p.qos ≡ exactly_once
      → p.packet_id ≡ some id
      → (channel_of conn hub).listening ≡ true
      → let h1 = (dispatch_server_inbound core conn client_id (Packet.publish p) hub).1 in
        let h2 = (dispatch_server_inbound core conn client_id (Packet.pubrel id) h1).1 in
        let h3 = (dispatch_server_inbound core conn client_id (Packet.pubrel id) h2).1 in
        let release = fanned (record p { dup = false; packet_id = some id }) h1 in
        ((other : ℕ)
          → other ≢ conn
          → (channel_of other h1 ≡ channel_of other hub)
            × (channel_of other h2 ≡ channel_of other release)
            × (channel_of other h3 ≡ channel_of other release))
        × ((channel_of conn h1).queue
            ≡ (channel_of conn hub).queue ++ (Channel.packet (Packet.pubrec id) ∷ []))
        × ((channel_of conn h2).queue
            ≡ (channel_of conn release).queue ++ (Channel.packet (Packet.pubcomp id) ∷ []))
        × ((channel_of conn h3).queue
            ≡ (channel_of conn h2).queue ++ (Channel.packet (Packet.pubcomp id) ∷ []))
  released_once p hub q i listens =
      let h1 = (dispatch_server_inbound core conn client_id (Packet.publish p) hub).1 in
      let h2 = (dispatch_server_inbound core conn client_id (Packet.pubrel id) h1).1 in
      let s1 = Handled-publish p hub q i listens in
      let s2 = Handled-release (incoming_from_packet p) h1 s1.keeps s1.listens in
      let s3 = Handled-repeat h2 s2.keeps s2.listens in
      (
        λ other differ. (
          s1.others other differ,
          s2.others other differ,
          s3.others other differ ∙ s2.others other differ,
        ),
        s1.queue,
        s2.queue,
        s3.queue,
      )
