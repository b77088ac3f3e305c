-- ===== src/Protocol/Requests/Exchange.antt =====
-- A request and the acknowledgements that answer it, on one connection.
use jack_hotaru_mqtt.Base.{
  ==_refl, ◌≡◌, refl, sym, ◌∙◌, append-nil, true, List, [], ◌∷◌, ◌++◌, append_assoc, none, some,
  get-remove_same, map, arith,
}
use jack_hotaru_mqtt.Error.{Result, ok, err, channel_closed}
use jack_hotaru_mqtt.Error
use jack_hotaru_mqtt.Codes.QoS.{at_least_once, exactly_once}
use jack_hotaru_mqtt.Codes.SubackCode.{SubackCode}
use jack_hotaru_mqtt.Request
use jack_hotaru_mqtt.Request.{
  PacketId, PublishRequest, TopicFilter, MqttRequest, published, subscribed, acknowledged,
  completed,
}
use jack_hotaru_mqtt.Packet.{Packet}
use jack_hotaru_mqtt.Session.{AckSlot, Sender, allocate_packet_id}
use jack_hotaru_mqtt.Channel
use jack_hotaru_mqtt.Channel.{send_packet, send_publish, WriteCmd}
use jack_hotaru_mqtt.Protocol.{
  Connection, dispatch_client_inbound, fire_ack, fire_suback, pending, packet_id, codes, same_id,
}
use jack_hotaru_mqtt.Protocol.Requests.Packets.{sent_as, entries, map-entries}
use jack_hotaru_mqtt.Protocol.Requests.{
  allocate, register, slot, awaiting, finished, Wait, puback, pubrec, pubcomp, suback, arrived,
  elapsed, start, resume, request_packet, to_subscription,
}

-- The identifier that the next request gets.
abbrev pub next_id : Connection → PacketId
next_id c = (allocate_packet_id c.channel.session).0

-- The connection once a request under an identifier waits for its first answer.
abbrev waiting : Sender → Wait → WriteCmd → Connection → Connection
waiting tx w cmd c =
    let (id, channel) = allocate c.channel in
    record c {
      channel = record (register id (slot w tx) channel) { queue = c.channel.queue ++ (cmd ∷ []) };
    }

abbrev publish_cmd : PublishRequest → Connection → WriteCmd
publish_cmd req c = Channel.publish (request_packet req (some (next_id c)))

started_at_least_once :
    (tx : Sender) (req : PublishRequest) (c : Connection)
    → req.qos ≡ at_least_once
    → c.channel.listening ≡ true
    → start tx (Request.publish req) c
      ≡ (awaiting puback (next_id c), waiting tx puback (publish_cmd req c) c)
unfolding start send_publish
started_at_least_once tx req c q h = ground (arith, q, h)

-- A QoS 1 publish is sent under its identifier and waits; the PUBACK under that identifier is sent to
-- the waiting task, and the request then succeeds, with nothing left pending under the identifier.
pub publish-acknowledged :
    (tx tx' : Sender) (req : PublishRequest) (c : Connection)
    → req.qos ≡ at_least_once
    → c.channel.listening ≡ true
    → let (call, c1) = start tx (Request.publish req) c in
      let c2 = (dispatch_client_inbound (Packet.puback (next_id c)) c1).1 in
      (call ≡ awaiting puback (next_id c))
      × (c1.channel.queue ≡ c.channel.queue ++ (Channel.publish (sent_as (next_id c) req) ∷ []))
      × (c2.delivered ≡ c.delivered ++ ((tx, packet_id (next_id c)) ∷ []))
      × (pending (next_id c) c2 ≡ none)
      × ((resume puback (next_id c) tx' (arrived (next_id c)) c2).0
          ≡ finished (ok (published (acknowledged (next_id c)))))
unfolding dispatch_client_inbound resume fire_ack
publish-acknowledged tx tx' req c q h = rw (started_at_least_once tx req c q h) (
  refl,
  refl,
  rw (==_refl (next_id c)) refl,
  get-remove_same same_id (next_id c)
      (waiting tx puback (publish_cmd req c) c).channel.session.pending_acks,
  refl,
)

started_exactly_once :
    (tx : Sender) (req : PublishRequest) (c : Connection)
    → req.qos ≡ exactly_once
    → c.channel.listening ≡ true
    → start tx (Request.publish req) c
      ≡ (awaiting pubrec (next_id c), waiting tx pubrec (publish_cmd req c) c)
unfolding start send_publish
started_exactly_once tx req c q h = ground (arith, q, h)

-- An acknowledgement that finds a task waiting for it: what is sent to the peer and to the task.
record Answered (packet : Packet) (id : PacketId) (cmds : List WriteCmd) (tx : Sender)
    (c : Connection) : Type 0 where
  queued : (dispatch_client_inbound packet c).1.channel.queue ≡ c.channel.queue ++ cmds
  woken : (dispatch_client_inbound packet c).1.delivered ≡ c.delivered ++ ((tx, packet_id id) ∷ [])
  cleared : pending id (dispatch_client_inbound packet c).1 ≡ none
  listens : (dispatch_client_inbound packet c).1.channel.listening ≡ true

Answered-pubrec :
    (tx : Sender) (id : PacketId) (c : Connection)
    → pending id c ≡ some (AckSlot.pubrec tx)
    → c.channel.listening ≡ true
    → Answered (Packet.pubrec id) id (Channel.packet (Packet.pubrel id) ∷ []) tx c
unfolding dispatch_client_inbound fire_ack send_packet
Answered-pubrec tx id c p h = record {
  queued = ground (arith, h);
  woken = ground (arith, p, h);
  cleared = ground (arith, h, get-remove_same same_id id c.channel.session.pending_acks);
  listens = ground (arith, h);
}

Answered-pubcomp :
    (tx : Sender) (id : PacketId) (c : Connection)
    → pending id c ≡ some (AckSlot.pubcomp tx)
    → c.channel.listening ≡ true
    → Answered (Packet.pubcomp id) id [] tx c
unfolding dispatch_client_inbound fire_ack
Answered-pubcomp tx id c p h = record {
  queued = sym (append-nil c.channel.queue);
  woken = ground (arith, p);
  cleared = get-remove_same same_id id c.channel.session.pending_acks;
  listens = h;
}

-- A QoS 2 publish waits for its PUBREC, is released by a PUBREL when that arrives, waits for its
-- PUBCOMP under the same identifier, and succeeds when that arrives: the task is sent one answer in
-- each phase, on the channel of that phase.
pub publish_completed :
    (tx tx' : Sender) (req : PublishRequest) (c : Connection)
    → req.qos ≡ exactly_once
    → c.channel.listening ≡ true
    → let id = next_id c in
      let (call, c1) = start tx (Request.publish req) c in
      let c2 = (dispatch_client_inbound (Packet.pubrec id) c1).1 in
      let (call', c3) = resume pubrec id tx' (arrived id) c2 in
      let c4 = (dispatch_client_inbound (Packet.pubcomp id) c3).1 in
      (call ≡ awaiting pubrec id)
      × (call' ≡ awaiting pubcomp id)
      × (c4.channel.queue
          ≡ c.channel.queue
            ++ (Channel.publish (sent_as id req) ∷ Channel.packet (Packet.pubrel id) ∷ []))
      × (c4.delivered ≡ c.delivered ++ ((tx, packet_id id) ∷ (tx', packet_id id) ∷ []))
      × (pending id c4 ≡ none)
      × ((resume pubcomp id tx' (arrived id) c4).0 ≡ finished (ok (published (completed id))))
unfolding resume
publish_completed tx tx' req c q h =
    let id = next_id c in
    let c1 = waiting tx pubrec (publish_cmd req c) c in
    let s1 = Answered-pubrec tx id c1 (rw (==_refl id) refl) h in
    let c2 = (dispatch_client_inbound (Packet.pubrec id) c1).1 in
    let c3 = (resume pubrec id tx' (arrived id) c2).1 in
    let s2 = Answered-pubcomp tx' id c3 (rw (==_refl id) refl) s1.listens in
    rw (started_exactly_once tx req c q h) (
      refl,
      refl,
      rw (s2.queued, s1.queued) (append-nil _ ∙ append_assoc c.channel.queue _ _),
      rw (s2.woken, s1.woken) (append_assoc c.delivered _ _),
      s2.cleared,
      refl,
    )

unanswered_pubcomp :
    (id : PacketId) (c : Connection)
    → pending id c ≡ none
    → (dispatch_client_inbound (Packet.pubcomp id) c).1.delivered ≡ c.delivered
unfolding dispatch_client_inbound fire_ack
unanswered_pubcomp id c p = rw p (append-nil c.delivered)

-- A PUBCOMP that is handled before the task has gone on from the PUBREC wakes nobody: the task then
-- waits for a PUBCOMP that has come already, and when the wait elapses the request fails, although the
-- peer has answered both phases.
pub pubcomp_too_early :
    (tx tx' : Sender) (req : PublishRequest) (c : Connection)
    → req.qos ≡ exactly_once
    → c.channel.listening ≡ true
    → let id = next_id c in
      let c1 = (start tx (Request.publish req) c).1 in
      let c2 = (dispatch_client_inbound (Packet.pubrec id) c1).1 in
      let c3 = (dispatch_client_inbound (Packet.pubcomp id) c2).1 in
      let (call, c4) = resume pubrec id tx' (arrived id) c3 in
      (call ≡ awaiting pubcomp id)
      × (c4.delivered ≡ c.delivered ++ ((tx, packet_id id) ∷ []))
      × (pending id c4 ≡ some (AckSlot.pubcomp tx'))
      × ((resume pubcomp id tx' elapsed c4).0 ≡ finished (err (Error.timeout Error.ack)))
unfolding resume
pubcomp_too_early tx tx' req c q h =
    let id = next_id c in
    let c1 = waiting tx pubrec (publish_cmd req c) c in
    let s1 = Answered-pubrec tx id c1 (rw (==_refl id) refl) h in
    let c2 = (dispatch_client_inbound (Packet.pubrec id) c1).1 in
    rw (started_exactly_once tx req c q h)
      (refl, unanswered_pubcomp id c2 s1.cleared ∙ s1.woken, rw (==_refl id) refl, refl)

abbrev subscribe_cmd : List TopicFilter → Connection → WriteCmd
subscribe_cmd filters c = Channel.packet (
    Packet.subscribe
      (record { packet_id = next_id c; subscriptions = map to_subscription filters }))

started_subscribe :
    (tx : Sender) (filters : List TopicFilter) (c : Connection)
    → c.channel.listening ≡ true
    → start tx (Request.subscribe filters) c
      ≡ (awaiting suback (next_id c), waiting tx suback (subscribe_cmd filters c) c)
unfolding start send_packet
started_subscribe tx filters c h = ground (arith, h)

-- A SUBSCRIBE is sent under its identifier and waits; the SUBACK under that identifier sends its codes
-- to the waiting task, and the request then succeeds with them.
pub subscribe_answered :
    (tx tx' : Sender) (filters : List TopicFilter) (return_codes : List SubackCode) (c : Connection)
    → c.channel.listening ≡ true
    → let id = next_id c in
      let (call, c1) = start tx (Request.subscribe filters) c in
      let c2 =
        (dispatch_client_inbound
          (Packet.suback (record { packet_id = id; return_codes = return_codes }))
          c1).1 in
      (call ≡ awaiting suback id)
      × (c1.channel.queue
          ≡ c.channel.queue
            ++ (Channel.packet
                  (Packet.subscribe (record { packet_id = id; subscriptions = entries filters }))
                ∷ []))
      × (c2.delivered ≡ c.delivered ++ ((tx, codes return_codes) ∷ []))
      × (pending id c2 ≡ none)
      × ((resume suback id tx' (arrived return_codes) c2).0
          ≡ finished (ok (subscribed return_codes)))
unfolding dispatch_client_inbound resume fire_suback
subscribe_answered tx tx' filters return_codes c h = rw (started_subscribe tx filters c h) (
  refl,
  rw (map-entries filters) refl,
  rw (==_refl (next_id c)) refl,
  get-remove_same same_id (next_id c)
      (waiting tx suback (subscribe_cmd filters c) c).channel.session.pending_acks,
  refl,
)
