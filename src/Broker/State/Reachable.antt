-- ===== src/Broker/State/Reachable.antt =====
-- The states that the broker's operations lead to, in any order and from any connection. The channels
-- also change outside the broker, by their connections.
use jack_hotaru_mqtt.Base.{
  ℕ, ◌≡◌, refl, Bool, true, false, List, [], Str, str_eq, str_eq_iff, Option, none, some, get,
  get-remove_same, get-remove_other, remove, Bool-cases, inl, inr, if◌then◌else◌, Any, arith,
}
use jack_hotaru_mqtt.Codes.QoS.{QoS}
use jack_hotaru_mqtt.Properties
use jack_hotaru_mqtt.Packet.{PublishPacket}
use jack_hotaru_mqtt.Request.{TopicFilter, WillMessage}
use jack_hotaru_mqtt.Channel.{MqttChannel}
use jack_hotaru_mqtt.Broker.Tree
use jack_hotaru_mqtt.Broker.Tree.{matching}
use jack_hotaru_mqtt.Broker.Tree.Laws.{sub_of, sub_of-remove_client}
use jack_hotaru_mqtt.Broker.State.{
  Broker, SubscriberEntry, publish, will_packet, register_session, unregister_session,
  unregister_found, removed, subscribe, unsubscribe,
}
use jack_hotaru_mqtt.Broker.State.Fanout.{LeadsTo, publish-Delivered}
use jack_hotaru_mqtt.Broker.State.Delivery.{Delivered}
use jack_hotaru_mqtt.Broker.State.Reach.{Queued, publish_reaches}
use jack_hotaru_mqtt.Broker.State.Owned.{
  IsOwned, publish_will-keeps, register-IsOwned, unregister-IsOwned, subscribe-IsOwned,
  unsubscribe-IsOwned, publish-IsOwned,
}

pub data Reachable : Broker → Type 0 where
  start :
      (channels : ℕ → MqttChannel)
      → Reachable (record { sessions = []; subscriptions = Tree.new; channels = channels })
  registered :
      {broker : Broker} (client_id : Str) (channel : ℕ) (will : Option WillMessage)
      (clean_session : Bool)
      → Reachable broker
      → Reachable (register_session client_id channel will clean_session broker).1
  unregistered :
      {broker : Broker} (client_id : Str) (graceful : Bool)
      → Reachable broker
      → Reachable (unregister_session client_id graceful broker)
  subscribed :
      {broker : Broker} (client_id : Str) (filters : List TopicFilter)
      → Reachable broker
      → Reachable (subscribe client_id filters broker).1
  unsubscribed :
      {broker : Broker} (client_id : Str) (topics : List Str)
      → Reachable broker
      → Reachable (unsubscribe client_id topics broker)
  published :
      {broker : Broker} (source : Str) (packet : PublishPacket)
      → Reachable broker
      → Reachable (publish source packet broker)
  moved :
      {broker : Broker} (channels : ℕ → MqttChannel)
      → Reachable broker
      → Reachable (record broker { channels = channels })

-- In every state that the operations lead to, a client without a session has no subscription.
pub Reachable-IsOwned : {broker : Broker} → Reachable broker → IsOwned broker
Reachable-IsOwned (start channels) = λ f c h. refl
Reachable-IsOwned (registered client_id channel will clean_session before) =
    register-IsOwned client_id channel will clean_session _ (Reachable-IsOwned before)
Reachable-IsOwned (unregistered client_id graceful before) =
    unregister-IsOwned client_id graceful _ (Reachable-IsOwned before)
Reachable-IsOwned (subscribed client_id filters before) =
    subscribe-IsOwned client_id filters _ (Reachable-IsOwned before)
Reachable-IsOwned (unsubscribed client_id topics before) =
    unsubscribe-IsOwned client_id topics _ (Reachable-IsOwned before)
Reachable-IsOwned (published source packet before) =
    publish-IsOwned source packet _ (Reachable-IsOwned before)
Reachable-IsOwned (moved channels before) = Reachable-IsOwned before

sessions_removed :
    (client_id : Str) (broker : Broker) (c : Str)
    → get str_eq c (remove str_eq client_id broker.sessions)
      ≡ (if str_eq c client_id then none else get str_eq c broker.sessions)
sessions_removed client_id broker c = elim (Bool-cases (str_eq c client_id)) [
  | inl same ↦
      rw (same, (str_eq_iff c client_id).0 same) (get-remove_same str_eq client_id broker.sessions)
  | inr differs ↦ rw differs (
      get-remove_other str_eq c client_id broker.sessions
        (λ x e. ground (arith, str_eq_iff c x, str_eq_iff client_id x, str_eq_iff c client_id)))
]

found_ended :
    (client_id : Str) (graceful : Bool) (found : Option SubscriberEntry) (broker : Broker)
    (f c : Str)
    → get str_eq client_id broker.sessions ≡ found
    → IsOwned broker
    → let after = unregister_found client_id graceful found broker in
      (get str_eq client_id after.sessions ≡ none)
      × (sub_of f c after.subscriptions
          ≡ (if str_eq c client_id then none else sub_of f c broker.subscriptions))
      × (get str_eq c after.sessions
          ≡ (if str_eq c client_id then none else get str_eq c broker.sessions))
found_ended client_id graceful none broker f c e owned = (
  e,
  ground (arith, owned f c, str_eq_iff c client_id),
  ground (arith, e, str_eq_iff c client_id),
)
found_ended client_id graceful (some entry) broker f c e owned =
    let (s, t) = publish_will-keeps graceful entry.will (removed client_id broker) in
    (
      rw (s, get-remove_same str_eq client_id broker.sessions),
      rw (t, sub_of-remove_client client_id broker.subscriptions c f),
      rw (s, sessions_removed client_id broker c),
    )

-- After `unregister_session`, whether or not the end is graceful and there is a will, the client has no
-- session and no subscription, and the sessions and the subscriptions of the others are as before.
pub unregister_ends :
    (client_id : Str) (graceful : Bool) (broker : Broker) (f c : Str)
    → Reachable broker
    → let after = unregister_session client_id graceful broker in
      (get str_eq client_id after.sessions ≡ none)
      × (sub_of f c after.subscriptions
          ≡ (if str_eq c client_id then none else sub_of f c broker.subscriptions))
      × (get str_eq c after.sessions
          ≡ (if str_eq c client_id then none else get str_eq c broker.sessions))
unfolding unregister_session
unregister_ends client_id graceful broker f c reachable =
    found_ended client_id graceful (get str_eq client_id broker.sessions) broker f c refl
      (Reachable-IsOwned reachable)

-- A client with a session and a will is unregistered. If the caller says that the end is graceful, every
-- channel is as before. If not, each subscriber of the will's topic that is still registered, under an id
-- that is not empty, and whose connection is still being written, has a copy of the will in its queue,
-- and no connection gets anything but such copies.
pub unregister_will :
    (client_id : Str) (entry : SubscriberEntry) (will : WillMessage) (sub_id : Str) (q : QoS)
    (broker : Broker) (conn other : ℕ)
    → get str_eq client_id broker.sessions ≡ some entry
    → entry.will ≡ some will
    → Any (λ sub. sub ≡ (sub_id, q)) (matching (removed client_id broker).subscriptions will.topic)
    → LeadsTo [] (removed client_id broker) conn (sub_id, q)
    → (broker.channels conn).listening ≡ true
    → let packet : PublishPacket = record {
      properties = Properties.default;
      topic = will.topic;
      payload = will.payload;
      dup = false;
      qos = will.qos;
      retain = will.retain;
      packet_id = none;
    } in
      let abnormal = unregister_session client_id false broker in
      ((unregister_session client_id true broker).channels ≡ broker.channels)
      × Queued packet q (abnormal.channels conn)
      × Delivered packet (broker.channels other) (abnormal.channels other)
unfolding unregister_session
unregister_will client_id entry will sub_id q broker conn other e set there leads h = (
  rw (e, set),
  rw (e, set)
      (publish_reaches [] (will_packet will) sub_id q (removed client_id broker) conn there leads
        h),
  rw (e, set) (publish-Delivered [] (will_packet will) (removed client_id broker) other),
)
