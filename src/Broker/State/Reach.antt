-- ===== src/Broker/State/Reach.antt =====
-- Every subscriber that is connected gets its copy.
use jack_hotaru_mqtt.Base.{
  Any-left, ==_refl, ℕ, ◌≡◌, refl, ◌∙◌, inl, inr, true, false, List, [], ◌∷◌, ◌++◌, Str, str_eq,
  str_eq_iff, map, Any, arith,
}
use jack_hotaru_mqtt.Codes.QoS.{QoS}
use jack_hotaru_mqtt.Codes.QoS
use jack_hotaru_mqtt.Packet.{PublishPacket}
use jack_hotaru_mqtt.Channel.{MqttChannel, WriteCmd}
use jack_hotaru_mqtt.Channel
use jack_hotaru_mqtt.Broker.Tree.{Subscribers, matching}
use jack_hotaru_mqtt.Broker.State.{Broker, deliver, publish, publish_all, publish_to}
use jack_hotaru_mqtt.Broker.State.Delivery.{
  Delivered, IsCopy, queue_after, copy_for, copy_for-IsCopy,
}
use jack_hotaru_mqtt.Broker.State.Fanout.{LeadsTo, all-Delivered, to-Delivered, same_sessions}

-- A copy of the packet, with the smaller of the two QoS, stands in the queue.
abbrev pub Queued : PublishPacket → QoS → MqttChannel → Type 0
Queued packet q channel =
    (copy : PublishPacket) × IsCopy packet copy
    × (copy.qos ≡ QoS.min packet.qos q)
    × Any (λ cmd. cmd ≡ Channel.publish copy) channel.queue

pub Any-append_last :
    (P : WriteCmd → Type 0) (xs : List WriteCmd) (y : WriteCmd) → P y → Any P (xs ++ (y ∷ []))
Any-append_last P [] y h = inl h
Any-append_last P (x ∷ xs) y h = inr (Any-append_last P xs y h)

stays :
    (packet : PublishPacket) (q : QoS) (before after : MqttChannel)
    → Queued packet q before
    → Delivered packet before after
    → Queued packet q after
stays packet q before after (copy, is_copy, same, there) d = (
  copy,
  is_copy,
  same,
  rw d.queued (
      Any-left (λ cmd. cmd ≡ Channel.publish copy) before.queue (map Channel.publish d.copies)
        there),
)

deliver-Queued :
    (packet : PublishPacket) (q : QoS) (channel : MqttChannel)
    → channel.listening ≡ true
    → Queued packet q (deliver packet q channel)
deliver-Queued packet q channel h = (
  copy_for packet q channel,
  copy_for-IsCopy packet q channel,
  refl,
  rw (queue_after packet q channel h) (
      Any-append_last (λ cmd. cmd ≡ Channel.publish (copy_for packet q channel)) channel.queue _
        refl),
)

to-Queued :
    (source : Str) (packet : PublishPacket) (sub_id : Str) (q : QoS) (broker : Broker) (conn : ℕ)
    → LeadsTo source broker conn (sub_id, q)
    → (broker.channels conn).listening ≡ true
    → Queued packet q ((publish_to source packet (sub_id, q) broker).channels conn)
to-Queued source packet sub_id q broker conn (other, entry, found, here) h =
    let differs : str_eq sub_id source ≡ false = ground (arith, str_eq_iff sub_id source) in
    rw (differs, found, here, ==_refl conn) (deliver-Queued packet q (broker.channels conn) h)

all-Queued :
    (source : Str) (packet : PublishPacket) (sub_id : Str) (q : QoS) (subs : Subscribers)
    (broker : Broker) (conn : ℕ)
    → Any (λ sub. sub ≡ (sub_id, q)) subs
    → LeadsTo source broker conn (sub_id, q)
    → (broker.channels conn).listening ≡ true
    → Queued packet q ((publish_all source packet subs broker).channels conn)
all-Queued source packet sub_id q [] broker conn there leads h = absurd there
all-Queued source packet sub_id q (sub ∷ subs) broker conn (inl here) leads h =
    let next = publish_to source packet sub broker in
    stays packet q (next.channels conn) _
      (rw here (to-Queued source packet sub_id q broker conn leads h))
      (all-Delivered source packet subs next conn)
all-Queued source packet sub_id q (sub ∷ subs) broker conn (inr later) leads h =
    let next = publish_to source packet sub broker in
    all-Queued source packet sub_id q subs next conn later
      (rw (same_sessions source packet sub broker) leads)
      ((to-Delivered source packet sub broker conn).same_listening ∙ h)

-- Each subscription to the topic, by a client other than the publisher whose connection is still being
-- written, has a copy of the packet in its queue after `publish`, with the smaller of the two QoS.
pub publish_reaches :
    (source : Str) (packet : PublishPacket) (sub_id : Str) (q : QoS) (broker : Broker) (conn : ℕ)
    → Any (λ sub. sub ≡ (sub_id, q)) (matching broker.subscriptions packet.topic)
    → LeadsTo source broker conn (sub_id, q)
    → (broker.channels conn).listening ≡ true
    → Queued packet q ((publish source packet broker).channels conn)
unfolding publish
publish_reaches source packet sub_id q broker conn =
    all-Queued source packet sub_id q (matching broker.subscriptions packet.topic) broker conn
