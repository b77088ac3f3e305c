-- ===== src/Broker/State/Fanout.antt =====
-- Which channels `publish` writes to, and what they get.
use jack_hotaru_mqtt.Base.{
  ℕ, ◌==◌, ==_iff, ◌≡◌, ◌≢◌, refl, sym, ◌∙◌, inl, inr, Bool-cases, [], ◌∷◌, Str, str_eq, str_eq_iff,
  Option, none, some, get, All, arith,
}
use jack_hotaru_mqtt.Codes.QoS.{QoS}
use jack_hotaru_mqtt.Packet.{PublishPacket}
use jack_hotaru_mqtt.Broker.Tree.{Subscribers, matching}
use jack_hotaru_mqtt.Broker.State.{
  Broker, SubscriberEntry, publish, publish_all, publish_to, publish_found,
}
use jack_hotaru_mqtt.Broker.State.Delivery.{Delivered, nothing, and_then, deliver-Delivered}

found-Delivered :
    (packet : PublishPacket) (q : QoS) (found : Option SubscriberEntry) (broker : Broker) (conn : ℕ)
    → Delivered packet (broker.channels conn) ((publish_found packet q found broker).channels conn)
found-Delivered packet q none broker conn = nothing packet (broker.channels conn)
found-Delivered packet q (some entry) broker conn = elim (Bool-cases (conn == entry.channel)) [
  | inl here ↦
      rw (here, (==_iff conn entry.channel).0 here)
        (deliver-Delivered packet q (broker.channels entry.channel))
  | inr elsewhere ↦ rw elsewhere (nothing packet (broker.channels conn))
]

pub to-Delivered :
    (source : Str) (packet : PublishPacket) (sub : Str × QoS) (broker : Broker) (conn : ℕ)
    → Delivered packet (broker.channels conn) ((publish_to source packet sub broker).channels conn)
to-Delivered source packet (sub_id, q) broker conn = elim (Bool-cases (str_eq sub_id source)) [
  | inl own ↦ rw own (nothing packet (broker.channels conn))
  | inr other ↦ rw other (found-Delivered packet q (get str_eq sub_id broker.sessions) broker conn)
]

pub all-Delivered :
    (source : Str) (packet : PublishPacket) (subs : Subscribers) (broker : Broker) (conn : ℕ)
    → Delivered packet
        (broker.channels conn)
        ((publish_all source packet subs broker).channels conn)
all-Delivered source packet [] broker conn = nothing packet (broker.channels conn)
all-Delivered source packet (sub ∷ subs) broker conn =
    let next = publish_to source packet sub broker in
    and_then packet (broker.channels conn) (next.channels conn) _
      (to-Delivered source packet sub broker conn) (all-Delivered source packet subs next conn)

pub publish-Delivered :
    (source : Str) (packet : PublishPacket) (broker : Broker) (conn : ℕ)
    → Delivered packet (broker.channels conn) ((publish source packet broker).channels conn)
unfolding publish
publish-Delivered source packet broker conn =
    all-Delivered source packet (matching broker.subscriptions packet.topic) broker conn

-- Whether a subscription, in `publish`, leads to a connection.
abbrev pub LeadsTo : Str → Broker → ℕ → Str × QoS → Type 0
LeadsTo source broker conn (sub_id, q) =
    (sub_id ≢ source)
    × (entry : SubscriberEntry) × (get str_eq sub_id broker.sessions ≡ some entry)
    × (entry.channel ≡ conn)

found_elsewhere :
    (packet : PublishPacket) (q : QoS) (found : Option SubscriberEntry) (broker : Broker) (conn : ℕ)
    → ((entry : SubscriberEntry) → found ≡ some entry → entry.channel ≢ conn)
    → (publish_found packet q found broker).channels conn ≡ broker.channels conn
found_elsewhere packet q none broker conn h = refl
found_elsewhere packet q (some entry) broker conn h = elim (Bool-cases (conn == entry.channel)) [
  | inl here ↦ absurd (h entry refl (sym ((==_iff conn entry.channel).0 here)))
  | inr elsewhere ↦ rw elsewhere
]

to_elsewhere :
    (source : Str) (packet : PublishPacket) (sub : Str × QoS) (broker : Broker) (conn : ℕ)
    → (LeadsTo source broker conn sub → ⊥)
    → (publish_to source packet sub broker).channels conn ≡ broker.channels conn
to_elsewhere source packet (sub_id, q) broker conn h = elim (Bool-cases (str_eq sub_id source)) [
  | inl own ↦ rw own
  | inr other ↦ rw other (
      found_elsewhere packet q (get str_eq sub_id broker.sessions) broker conn
        (λ entry e same. h (ground (arith, str_eq_iff sub_id source), entry, e, same)))
]

pub same_sessions :
    (source : Str) (packet : PublishPacket) (sub : Str × QoS) (broker : Broker)
    → (publish_to source packet sub broker).sessions ≡ broker.sessions
same_sessions source packet (sub_id, q) broker = ground arith

all_elsewhere :
    (source : Str) (packet : PublishPacket) (subs : Subscribers) (broker : Broker) (conn : ℕ)
    → All (λ sub. LeadsTo source broker conn sub → ⊥) subs
    → (publish_all source packet subs broker).channels conn ≡ broker.channels conn
all_elsewhere source packet [] broker conn h = refl
all_elsewhere source packet (sub ∷ subs) broker conn h =
    let next = publish_to source packet sub broker in
    let sessions = same_sessions source packet sub broker in
    all_elsewhere source packet subs next conn (rw sessions h.1)
    ∙ to_elsewhere source packet sub broker conn h.0

-- A connection that no subscription to the topic leads to is not touched by `publish`, its session
-- included; a subscription of the publisher itself leads nowhere.
pub publish_elsewhere :
    (source : Str) (packet : PublishPacket) (broker : Broker) (conn : ℕ)
    → All (λ sub. LeadsTo source broker conn sub → ⊥) (matching broker.subscriptions packet.topic)
    → (publish source packet broker).channels conn ≡ broker.channels conn
unfolding publish
publish_elsewhere source packet broker conn h =
    all_elsewhere source packet (matching broker.subscriptions packet.topic) broker conn h
