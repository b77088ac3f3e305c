-- ===== src/Protocol/ExactlyOnce.antt =====
-- QoS 2 on the receiving side, and the delivery of acknowledgements.
use jack_hotaru_mqtt.Base.{
  ==_refl, ==_iff, ◌==◌, ◌≡◌, ◌≢◌, ◌⊎◌, inl, inr, refl, true, Bool-cases, List, [], ◌∷◌, ◌++◌,
  append_assoc, append-nil, Option, none, some, get, remove, get-remove_same, get-remove_other,
  if◌then◌else◌, arith,
}
use jack_hotaru_mqtt.Codes.QoS.{exactly_once}
use jack_hotaru_mqtt.Request.{PacketId, IncomingPublish}
use jack_hotaru_mqtt.Packet.{Packet, PublishPacket}
use jack_hotaru_mqtt.Session.{AckSlot, Sender}
use jack_hotaru_mqtt.Channel
use jack_hotaru_mqtt.Channel.{MqttChannel, WriteCmd, send_packet}
use jack_hotaru_mqtt.Protocol.{
  Connection, dispatch_client_inbound, ack_inbound_publish_pre_chain, incoming_from_packet, same_id,
  fire_ack, wakes, pending, AckKind, Delivery, packet_id,
}

-- The loop over the packets that arrive, as far as no handler fails and the peer does not disconnect.
unfoldable pub dispatch_all : List Packet → Connection → Connection
dispatch_all [] c = c
dispatch_all (packet ∷ packets) c = dispatch_all packets (dispatch_client_inbound packet c).1

append_four {ℓ} :
    {A : Type ℓ} (xs a b d e : List A) → (((xs ++ a) ++ b) ++ d) ++ e ≡ xs ++ (a ++ (b ++ (d ++ e)))
append_four xs a b d e = rw (
  append_assoc xs a b,
  append_assoc xs (a ++ b) d,
  append_assoc xs ((a ++ b) ++ d) e,
  append_assoc a b d,
  append_assoc a (b ++ d) e,
  append_assoc b d e,
)

abbrev stored : PacketId → Connection → Option IncomingPublish
stored id c = get same_id id c.channel.session.qos2_recv

-- One packet on a connection that is being written: what it dispatches, what is stored for the
-- identifier afterwards, and how it is answered.
record Handled (id : PacketId) (packet : Packet) (news : List IncomingPublish)
    (kept : Option IncomingPublish) (answer : Packet) (c : Connection) : Type 0 where
  dispatches : (dispatch_client_inbound packet c).1.dispatched ≡ c.dispatched ++ news
  keeps : stored id (dispatch_client_inbound packet c).1 ≡ kept
  answers :
      (dispatch_client_inbound packet c).1.channel.queue
      ≡ c.channel.queue ++ (Channel.packet answer ∷ [])
  listens : (dispatch_client_inbound packet c).1.channel.listening ≡ true

Handled-publish :
    (p : PublishPacket) (id : PacketId) (c : Connection)
    → p.qos ≡ exactly_once
    → p.packet_id ≡ some id
    → c.channel.listening ≡ true
    → Handled id (Packet.publish p) [] (some (incoming_from_packet p)) (Packet.pubrec id) c
unfolding dispatch_client_inbound ack_inbound_publish_pre_chain send_packet
Handled-publish p id c q i h = record {
  dispatches = ground (arith, q, i, h, append-nil c.dispatched);
  keeps = ground (arith, q, i, h, ==_refl id);
  answers = ground (arith, q, i, h);
  listens = ground (arith, q, i, h);
}

Handled-release :
    (incoming : IncomingPublish) (id : PacketId) (c : Connection)
    → stored id c ≡ some incoming
    → c.channel.listening ≡ true
    → Handled id (Packet.pubrel id) (incoming ∷ []) none (Packet.pubcomp id) c
unfolding dispatch_client_inbound send_packet
Handled-release incoming id c e h = record {
  dispatches = ground (arith, e, h);
  keeps = ground (arith, e, h, get-remove_same same_id id c.channel.session.qos2_recv);
  answers = ground (arith, e, h);
  listens = ground (arith, e, h);
}

Handled-repeat :
    (id : PacketId) (c : Connection)
    → stored id c ≡ none
    → c.channel.listening ≡ true
    → Handled id (Packet.pubrel id) [] none (Packet.pubcomp id) c
unfolding dispatch_client_inbound send_packet
Handled-repeat id c e h = record {
  dispatches = ground (arith, e, h, append-nil c.dispatched);
  keeps = ground (arith, e, h);
  answers = ground (arith, e, h);
  listens = ground (arith, e, h);
}

-- A QoS 2 publish that arrives, is sent again before its PUBREL, and is released twice, is dispatched
-- once, as it arrived last; each of the four packets is answered, in order, while the writer listens.
pub dispatch_once :
    (first again : PublishPacket) (id : PacketId) (c : Connection)
    → first.qos ≡ exactly_once
    → again.qos ≡ exactly_once
    → first.packet_id ≡ some id
    → again.packet_id ≡ some id
    → c.channel.listening ≡ true
    → let after =
        dispatch_all
          (Packet.publish first ∷ Packet.publish again ∷ Packet.pubrel id ∷ Packet.pubrel id ∷ [])
          c in
      (after.dispatched ≡ c.dispatched ++ (incoming_from_packet again ∷ []))
      × (after.channel.queue
          ≡ c.channel.queue
            ++ (Channel.packet (Packet.pubrec id)
                ∷ Channel.packet (Packet.pubrec id)
                ∷ Channel.packet (Packet.pubcomp id)
                ∷ Channel.packet (Packet.pubcomp id)
                ∷ []))
unfolding dispatch_all
dispatch_once first again id c q q' i i' h =
    let c1 = (dispatch_client_inbound (Packet.publish first) c).1 in
    let c2 = (dispatch_client_inbound (Packet.publish again) c1).1 in
    let c3 = (dispatch_client_inbound (Packet.pubrel id) c2).1 in
    let s1 = Handled-publish first id c q i h in
    let s2 = Handled-publish again id c1 q' i' s1.listens in
    let s3 = Handled-release (incoming_from_packet again) id c2 s2.keeps s2.listens in
    let s4 = Handled-repeat id c3 s3.keeps s3.listens in
    (
      rw (s4.dispatches, s3.dispatches, s2.dispatches, s1.dispatches)
          (append_four c.dispatched [] [] (incoming_from_packet again ∷ []) []),
      rw (s4.answers, s3.answers, s2.answers, s1.answers) (append_four c.channel.queue _ _ _ _),
    )

-- The slot of a task that waits for an acknowledgement of a kind.
abbrev pub waiter : AckKind → Sender → AckSlot
waiter AckKind.puback tx = AckSlot.puback tx
waiter AckKind.pubrec tx = AckSlot.pubrec tx
waiter AckKind.pubcomp tx = AckSlot.pubcomp tx

-- Whom an acknowledgement wakes, by the slot under its identifier: the task that waits for its kind,
-- or else nobody.
abbrev pub Woken :
    PacketId → AckKind → Option AckSlot → (before after : List (Sender × Delivery)) → Type 0
Woken id kind slot before after =
    ((tx : Sender) × (slot ≡ some (waiter kind tx)) × (after ≡ before ++ ((tx, packet_id id) ∷ [])))
    ⊎ (((tx : Sender) → slot ≢ some (waiter kind tx)) × (after ≡ before))

wakes-Woken :
    (id : PacketId) (kind : AckKind) (slot : Option AckSlot) (before : List (Sender × Delivery))
    → Woken id kind slot before (before ++ wakes id slot kind)
wakes-Woken id AckKind.puback none before = inr ((λ tx e. cc), append-nil before)
wakes-Woken id AckKind.pubrec none before = inr ((λ tx e. cc), append-nil before)
wakes-Woken id AckKind.pubcomp none before = inr ((λ tx e. cc), append-nil before)
wakes-Woken id AckKind.puback (some (AckSlot.puback tx)) before = inl (tx, refl, refl)
wakes-Woken id AckKind.pubrec (some (AckSlot.pubrec tx)) before = inl (tx, refl, refl)
wakes-Woken id AckKind.pubcomp (some (AckSlot.pubcomp tx)) before = inl (tx, refl, refl)
wakes-Woken id AckKind.puback (some (AckSlot.pubrec tx)) before =
    inr ((λ tx' e. cc), append-nil before)
wakes-Woken id AckKind.puback (some (AckSlot.pubcomp tx)) before =
    inr ((λ tx' e. cc), append-nil before)
wakes-Woken id AckKind.puback (some (AckSlot.suback tx)) before =
    inr ((λ tx' e. cc), append-nil before)
wakes-Woken id AckKind.puback (some (AckSlot.unsuback tx)) before =
    inr ((λ tx' e. cc), append-nil before)
wakes-Woken id AckKind.pubrec (some (AckSlot.puback tx)) before =
    inr ((λ tx' e. cc), append-nil before)
wakes-Woken id AckKind.pubrec (some (AckSlot.pubcomp tx)) before =
    inr ((λ tx' e. cc), append-nil before)
wakes-Woken id AckKind.pubrec (some (AckSlot.suback tx)) before =
    inr ((λ tx' e. cc), append-nil before)
wakes-Woken id AckKind.pubrec (some (AckSlot.unsuback tx)) before =
    inr ((λ tx' e. cc), append-nil before)
wakes-Woken id AckKind.pubcomp (some (AckSlot.puback tx)) before =
    inr ((λ tx' e. cc), append-nil before)
wakes-Woken id AckKind.pubcomp (some (AckSlot.pubrec tx)) before =
    inr ((λ tx' e. cc), append-nil before)
wakes-Woken id AckKind.pubcomp (some (AckSlot.suback tx)) before =
    inr ((λ tx' e. cc), append-nil before)
wakes-Woken id AckKind.pubcomp (some (AckSlot.unsuback tx)) before =
    inr ((λ tx' e. cc), append-nil before)

pending-drop :
    (id other : PacketId) (slots : List (PacketId × AckSlot))
    → get same_id other (remove same_id id slots)
      ≡ (if other == id then none else get same_id other slots)
pending-drop id other slots = elim (Bool-cases (other == id)) [
  | inl same ↦ rw (same, (==_iff other id).0 same) (get-remove_same same_id id slots)
  | inr differs ↦ rw differs (
      get-remove_other same_id other id slots
        (λ x e. ground (arith, ==_iff id x, ==_iff other x, ==_iff other id)))
]

-- An acknowledgement wakes the task that waits under its identifier for an acknowledgement of its kind,
-- with that identifier, and otherwise nobody. The slot under the identifier is empty afterwards, and
-- every other slot as before, so that a later one under that identifier, of whatever kind, wakes nobody.
pub fire_ack_once :
    (id other : PacketId) (kind kind' : AckKind) (c : Connection)
    → let after = fire_ack id kind c in
      Woken id kind (pending id c) c.delivered after.delivered
      × (pending other after ≡ (if other == id then none else pending other c))
      × ((fire_ack id kind' after).delivered ≡ after.delivered)
unfolding fire_ack
fire_ack_once id other kind kind' c = (
  wakes-Woken id kind (pending id c) c.delivered,
  pending-drop id other c.channel.session.pending_acks,
  rw (
    get-remove_same same_id id c.channel.session.pending_acks,
    append-nil (c.delivered ++ wakes id (pending id c) kind),
  ),
)
