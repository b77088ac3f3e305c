-- ===== src/Protocol/Client/Subscribing.antt =====
-- The first subscriptions of a client: the task that would read their SUBACK is the one that waits.
use jack_hotaru_mqtt.Base.{
  ◌≡◌, ◌≢◌, ℕ, inl, inr, refl, ◌∙◌, ap, false, List, [], ◌∷◌, ◌++◌, some, none, All, Any, ==_refl,
  append_assoc, arith,
}
use jack_hotaru_mqtt.Error
use jack_hotaru_mqtt.Codes.ReturnCode.{accepted}
use jack_hotaru_mqtt.Codes.SubackCode.{SubackCode}
use jack_hotaru_mqtt.Error.{MqttError, Result, ok, err, timeout, channel_closed}
use jack_hotaru_mqtt.Request.{PacketId, MqttRequest, TopicFilter}
use jack_hotaru_mqtt.Packet.{Packet, ConnackPacket}
use jack_hotaru_mqtt.Session.{AckSlot, Sender, allocate_packet_id, set_bind}
use jack_hotaru_mqtt.Channel
use jack_hotaru_mqtt.Channel.{MqttChannel, send_packet, send_publish, set_protocol_version, close}
use jack_hotaru_mqtt.Client.{MqttClientConfig, build_connect}
use jack_hotaru_mqtt.Protocol.{Connection, Delivery, codes, pending}
use jack_hotaru_mqtt.Protocol.Requests.{
  Wait, Value, Outcome, arrived, dropped, elapsed, start, resume,
}
use jack_hotaru_mqtt.Protocol.Requests.Packets.{entries, map-entries}
use jack_hotaru_mqtt.Protocol.Requests.Silent.{start-delivered, resume-delivered}
use jack_hotaru_mqtt.Protocol.Client.{
  subscribing, failed, packet_read, Session, Event, serve, first_subscribed, handle_client, on_wire,
}
use jack_hotaru_mqtt.Protocol.Client.Handshake.{Answers, reaches_connack}

-- What may happen on a client while it waits: the other tasks' requests, up to their first wait and on
-- from a wait; a turn of its loop, if it were in it; the end of the channel.
pub data Step : Type 0 where
  starts : Sender → MqttRequest → Step
  resumes : (w : Wait) → PacketId → Sender → Outcome (Value w) → Step
  turns_loop : Event → Step
  closes : Step

abbrev pub step : Step → Session → Session
step (starts tx req) s = record s { connection = (start tx req s.connection).1 }
step (resumes w id tx o) s = record s { connection = (resume w id tx o s.connection).1 }
step (turns_loop event) s = serve event s
step closes s = record s { connection = on_wire (close s.connection.channel) s.connection }

unfoldable pub steps : List Step → Session → Session
unfolding start resume serve close
steps [] s = s
steps (t ∷ ts) s = steps ts (step t s)

-- How the wait on the oneshot channel `tx` may end: with what was sent on it, if anything was; because
-- its sender was dropped; or by the timeout.
abbrev pub MayEnd : Sender → Connection → Outcome (List SubackCode) → Type 0
MayEnd tx c (arrived v) = Any (λ (d : Sender × Delivery). d ≡ (tx, codes v)) c.delivered
MayEnd tx c dropped = Unit {0}
MayEnd tx c elapsed = Unit {0}

-- Nothing is read and nobody is sent anything while the client waits.
record Waits (id : PacketId) (before after : Session) : Type 0 where
  phase : after.phase ≡ subscribing id
  reader : after.reader ≡ before.reader
  delivered : after.connection.delivered ≡ before.connection.delivered

step-Waits :
    (id : PacketId) (t : Step) (s : Session) → s.phase ≡ subscribing id → Waits id s (step t s)
step-Waits id (starts tx req) s h = record {
  phase = h;
  reader = refl;
  delivered = start-delivered tx s.connection req;
}
step-Waits id (resumes w i tx o) s h = record {
  phase = h;
  reader = refl;
  delivered = resume-delivered tx s.connection w i o;
}
step-Waits id (turns_loop event) s h =
    let same : serve event s ≡ s = unfold serve in rw h refl in
    rw same (record { phase = h; reader = refl; delivered = refl })
step-Waits id closes s h = record { phase = h; reader = refl; delivered = refl }

steps-Waits :
    (id : PacketId) (ts : List Step) (s : Session)
    → s.phase ≡ subscribing id
    → Waits id s (steps ts s)
unfolding steps
steps-Waits id [] s h = record { phase = h; reader = refl; delivered = refl }
steps-Waits id (t ∷ ts) s h =
    let one = step-Waits id t s h in
    let more = steps-Waits id ts (step t s) one.phase in
    record {
      phase = more.phase;
      reader = more.reader ∙ one.reader;
      delivered = more.delivered ∙ one.delivered;
    }

not_sent :
    (tx : Sender) (v : List SubackCode) (ds : List (Sender × Delivery))
    → All (λ (d : Sender × Delivery). d.0 ≢ tx) ds
    → Any (λ (d : Sender × Delivery). d ≡ (tx, codes v)) ds
    → ⊥
not_sent tx v [] h there = there
not_sent tx v (d ∷ ds) (h, hs) (inl here) = h (ap (λ (e : Sender × Delivery). e.0) here)
not_sent tx v (d ∷ ds) (h, hs) (inr later) = not_sent tx v ds hs later

-- However the wait ends, without anything having been sent on its channel, the client fails.
ends :
    (tx : Sender) (o : Outcome (List SubackCode)) (s : Session)
    → All (λ (d : Sender × Delivery). d.0 ≢ tx) s.connection.delivered
    → MayEnd tx s.connection o
    → let after = first_subscribed o s in
      ((e : MqttError) × (after.phase ≡ failed e)) × (after.connection.channel.is_open ≡ false)
unfolding first_subscribed
ends tx (arrived v) s h may = absurd (not_sent tx v s.connection.delivered h may)
ends tx dropped s h may = ((channel_closed, refl), ground arith)
ends tx elapsed s h may = ((timeout Error.ack, refl), ground arith)

-- The wait begins: the SUBSCRIBE is queued, and its slot has the oneshot channel.
begins :
    {H : Type 0} (config : MqttClientConfig H) (tx : Sender) (answer : ConnackPacket)
    (c : Connection) (wire rest : List ℕ) (tf : TopicFilter) (tfs : List TopicFilter)
    → Answers config tx answer c wire rest
    → answer.return_code ≡ accepted
    → config.initial_subscriptions ≡ tf ∷ tfs
    → c.channel.session.bind ≡ none
    → let s = handle_client (some config) tx packet_read c in
      let id = (allocate_packet_id c.channel.session).0 in
      (s.phase ≡ subscribing id)
      × (s.reader ≡ rest)
      × (s.connection.delivered ≡ c.delivered)
      × (pending id s.connection ≡ some (AckSlot.suback tx))
      × (s.connection.channel.queue
          ≡ c.channel.queue
            ++ (Channel.packet (Packet.connect (build_connect config))
                ∷ Channel.packet (
                    Packet.subscribe
                      (record { packet_id = id; subscriptions = entries (tf ∷ tfs) }))
                ∷ []))
unfolding handle_client set_bind send_packet set_protocol_version allocate_packet_id
begins config tx answer c wire rest tf tfs a accepts first free =
    let connect = Channel.packet (Packet.connect (build_connect config)) ∷ [] in
    let id = (allocate_packet_id c.channel.session).0 in
    rw (reaches_connack config tx answer c wire rest a) (
      rw (accepts, first, free, a.listens) refl,
      rw (accepts, first, free, a.listens) refl,
      rw (accepts, first, free, a.listens) refl,
      rw (accepts, first, free, a.listens, ==_refl id) refl,
      rw (accepts, first, free, a.listens, ← map-entries tfs)
          (append_assoc c.channel.queue connect _),
    )

-- The configuration of a client names first subscriptions, and the client reads a CONNACK that accepts,
-- on a connection without a binding. It then queues a SUBSCRIBE with them behind its CONNECT, under an
-- identifier whose slot has its oneshot channel, new and so with nothing sent on it, and waits. Whatever
-- requests other tasks make and go on with meanwhile, and whether or not the channel is closed, no byte
-- of the stream behind the CONNACK is read, a SUBACK there included; and however the wait ends, with a
-- value only if one was sent on its channel, the client fails and is closed.
pub first_suback_unread :
    {H : Type 0} (config : MqttClientConfig H) (tx : Sender) (answer : ConnackPacket)
    (c : Connection) (wire rest : List ℕ) (tf : TopicFilter) (tfs : List TopicFilter)
    (ts : List Step) (o : Outcome (List SubackCode))
    → Answers config tx answer c wire rest
    → answer.return_code ≡ accepted
    → config.initial_subscriptions ≡ tf ∷ tfs
    → c.channel.session.bind ≡ none
    → All (λ (d : Sender × Delivery). d.0 ≢ tx) c.delivered
    → MayEnd tx (steps ts (handle_client (some config) tx packet_read c)).connection o
    → let waits = handle_client (some config) tx packet_read c in
      let later = steps ts waits in
      let after = first_subscribed o later in
      ((id : PacketId) × (waits.phase ≡ subscribing id)
        × (pending id waits.connection ≡ some (AckSlot.suback tx))
        × (waits.connection.channel.queue
            ≡ c.channel.queue
              ++ (Channel.packet (Packet.connect (build_connect config))
                  ∷ Channel.packet (
                      Packet.subscribe
                        (record { packet_id = id; subscriptions = entries (tf ∷ tfs) }))
                  ∷ [])))
      × (later.reader ≡ rest)
      × ((e : MqttError) × (after.phase ≡ failed e))
      × (after.connection.channel.is_open ≡ false)
first_suback_unread config tx answer c wire rest tf tfs ts o a accepts first free new may =
    let waits = handle_client (some config) tx packet_read c in
    let id = (allocate_packet_id c.channel.session).0 in
    let (phase, reader, delivered, slot, queue) =
      begins config tx answer c wire rest tf tfs a accepts first free in
    let kept = steps-Waits id ts waits phase in
    let (fails, shut) = ends tx o (steps ts waits) (rw (kept.delivered, delivered) new) may in
    ((id, phase, slot, queue), kept.reader ∙ reader, fails, shut)
