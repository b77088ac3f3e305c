-- ===== src/Broker/State/Owned.antt =====
-- The subscriptions of the tree belong to clients that have a session.
use jack_hotaru_mqtt.Base.{
  ℕ, ◌≡◌, ◌≢◌, refl, ◌∙◌, Bool, true, false, List, [], ◌∷◌, Str, str_eq, Option, none, some, get,
  get-remove_str, arith,
}
use jack_hotaru_mqtt.Packet.{PublishPacket}
use jack_hotaru_mqtt.Request.{TopicFilter, WillMessage}
use jack_hotaru_mqtt.Broker.Tree.{Subscribers, matching}
use jack_hotaru_mqtt.Broker.Tree.Laws.{sub_of, sub_of-remove_client}
use jack_hotaru_mqtt.Broker.State.{
  Broker, SubscriberEntry, publish, publish_all, publish_to, publish_will, will_packet,
  register_session, unregister_session, unregister_found, removed, subscribe, subscribe_found,
  unsubscribe, unsubscribe_found,
}
use jack_hotaru_mqtt.Broker.State.Subscribe.{all-sub_of, all-sub_of_unsubscribe}

-- A client without a session has no subscription.
abbrev pub IsOwned : Broker → Type 0
IsOwned broker =
    (f c : Str) → get str_eq c broker.sessions ≡ none → sub_of f c broker.subscriptions ≡ none

-- `publish` changes neither the sessions nor the subscriptions.
pub publish_all-keeps :
    (source : Str) (packet : PublishPacket) (subs : Subscribers) (broker : Broker)
    → let after = publish_all source packet subs broker in
      (after.sessions ≡ broker.sessions) × (after.subscriptions ≡ broker.subscriptions)
publish_all-keeps source packet [] broker = (refl, refl)
publish_all-keeps source packet ((sub_id, q) ∷ subs) broker =
    let next = publish_to source packet (sub_id, q) broker in
    let here : (next.sessions ≡ broker.sessions) × (next.subscriptions ≡ broker.subscriptions) =
      ground arith in
    let later = publish_all-keeps source packet subs next in (later.0 ∙ here.0, later.1 ∙ here.1)

pub publish-keeps :
    (source : Str) (packet : PublishPacket) (broker : Broker)
    → let after = publish source packet broker in
      (after.sessions ≡ broker.sessions) × (after.subscriptions ≡ broker.subscriptions)
unfolding publish
publish-keeps source packet broker =
    publish_all-keeps source packet (matching broker.subscriptions packet.topic) broker

pub publish_will-keeps :
    (graceful : Bool) (will : Option WillMessage) (broker : Broker)
    → let after = publish_will graceful will broker in
      (after.sessions ≡ broker.sessions) × (after.subscriptions ≡ broker.subscriptions)
publish_will-keeps graceful none broker = (refl, refl)
publish_will-keeps true (some will) broker = (refl, refl)
publish_will-keeps false (some will) broker = publish-keeps [] (will_packet will) broker

some-ne-none {ℓ} : {A : Type ℓ} {a : A} → some a ≢ none
some-ne-none = λ e. cc

pub register-IsOwned :
    (client_id : Str) (channel : ℕ) (will : Option WillMessage) (clean_session : Bool)
    (broker : Broker)
    → IsOwned broker
    → IsOwned (register_session client_id channel will clean_session broker).1
unfolding register_session
register-IsOwned client_id channel will true broker owned f c h = ground (
  arith,
  get-remove_str c client_id broker.sessions,
  sub_of-remove_client client_id broker.subscriptions c f,
  owned f c,
)
register-IsOwned client_id channel will false broker owned f c h =
    ground (arith, get-remove_str c client_id broker.sessions, owned f c)

removed-IsOwned :
    (client_id : Str) (broker : Broker) → IsOwned broker → IsOwned (removed client_id broker)
removed-IsOwned client_id broker owned f c h = ground (
  arith,
  get-remove_str c client_id broker.sessions,
  sub_of-remove_client client_id broker.subscriptions c f,
  owned f c,
)

keeps-IsOwned :
    (before after : Broker)
    → after.sessions ≡ before.sessions
    → after.subscriptions ≡ before.subscriptions
    → IsOwned before
    → IsOwned after
keeps-IsOwned before after s t owned f c h = rw t (owned f c (rw (← s) h))

pub publish-IsOwned :
    (source : Str) (packet : PublishPacket) (broker : Broker)
    → IsOwned broker
    → IsOwned (publish source packet broker)
publish-IsOwned source packet broker =
    let (s, t) = publish-keeps source packet broker in
    keeps-IsOwned broker (publish source packet broker) s t

found-IsOwned :
    (client_id : Str) (graceful : Bool) (found : Option SubscriberEntry) (broker : Broker)
    → IsOwned broker
    → IsOwned (unregister_found client_id graceful found broker)
found-IsOwned client_id graceful none broker owned = owned
found-IsOwned client_id graceful (some entry) broker owned =
    let (s, t) = publish_will-keeps graceful entry.will (removed client_id broker) in
    keeps-IsOwned (removed client_id broker)
      (publish_will graceful entry.will (removed client_id broker)) s t
      (removed-IsOwned client_id broker owned)

pub unregister-IsOwned :
    (client_id : Str) (graceful : Bool) (broker : Broker)
    → IsOwned broker
    → IsOwned (unregister_session client_id graceful broker)
unfolding unregister_session
unregister-IsOwned client_id graceful broker =
    found-IsOwned client_id graceful (get str_eq client_id broker.sessions) broker

subscribe_found-IsOwned :
    (client_id : Str) (filters : List TopicFilter) (found : Option SubscriberEntry)
    (broker : Broker)
    → IsOwned broker
    → IsOwned (subscribe_found client_id filters found broker).1
subscribe_found-IsOwned client_id filters none broker owned = owned
subscribe_found-IsOwned client_id filters (some entry) broker owned = λ f c h. ground (
  arith,
  h,
  get-remove_str c client_id broker.sessions,
  all-sub_of client_id filters entry.filters broker.subscriptions f c,
  owned f c,
)

pub subscribe-IsOwned :
    (client_id : Str) (filters : List TopicFilter) (broker : Broker)
    → IsOwned broker
    → IsOwned (subscribe client_id filters broker).1
unfolding subscribe
subscribe-IsOwned client_id filters broker =
    subscribe_found-IsOwned client_id filters (get str_eq client_id broker.sessions) broker

unsubscribe_found-IsOwned :
    (client_id : Str) (topics : List Str) (found : Option SubscriberEntry) (broker : Broker)
    → IsOwned broker
    → IsOwned (unsubscribe_found client_id topics found broker)
unsubscribe_found-IsOwned client_id topics none broker owned = owned
unsubscribe_found-IsOwned client_id topics (some entry) broker owned = λ f c h. ground (
  arith,
  h,
  get-remove_str c client_id broker.sessions,
  all-sub_of_unsubscribe client_id topics entry.filters broker.subscriptions f c,
  owned f c,
)

pub unsubscribe-IsOwned :
    (client_id : Str) (topics : List Str) (broker : Broker)
    → IsOwned broker
    → IsOwned (unsubscribe client_id topics broker)
unfolding unsubscribe
unsubscribe-IsOwned client_id topics broker =
    unsubscribe_found-IsOwned client_id topics (get str_eq client_id broker.sessions) broker
