-- ===== src/Broker/State.antt =====
-- src/broker.rs: `Broker`, its sessions and the connections that they hold. A channel is shared by the
-- connection and the broker, so the channels stand in a store, by connection id. The authenticator is
-- the program's own code and no part of the state. Each operation is one step.
pub mod Delivery
pub mod Owned
pub mod Fanout
pub mod Reach
pub mod Subscribe
pub mod Reachable
pub mod EndToEnd
pub mod Listed
use jack_hotaru_mqtt.Base.{
  ℕ, ◌==◌, Bool, true, false, not, ◌&&◌, List, [], ◌∷◌, Str, str_eq, Option, none, some, get,
  remove, insert, map, if◌then◌else◌,
}
use jack_hotaru_mqtt.Error.{is_ok}
use jack_hotaru_mqtt.Codes.QoS.{QoS, needs_id}
use jack_hotaru_mqtt.Codes.QoS
use jack_hotaru_mqtt.Codes.SubackCode.{SubackCode, granted, failure}
use jack_hotaru_mqtt.Topic.{validate_subscribe_filter}
use jack_hotaru_mqtt.Properties
use jack_hotaru_mqtt.Request.{PacketId, TopicFilter, WillMessage, IncomingPublish}
use jack_hotaru_mqtt.Packet.{PublishPacket}
use jack_hotaru_mqtt.Session.{MqttSession, allocate_packet_id}
use jack_hotaru_mqtt.Channel.{MqttChannel, send_publish}
use jack_hotaru_mqtt.Broker.Tree
use jack_hotaru_mqtt.Broker.Tree.{SubscriptionTree, Subscribers, matching}

-- `channel` is the id of the connection.
pub record SubscriberEntry : Type 0 where
  pub channel : ℕ
  pub filters : List (Str × QoS)
  pub will : Option WillMessage
  pub clean_session : Bool

pub record Broker : Type 0 where
  pub sessions : List (Str × SubscriberEntry)
  pub subscriptions : SubscriptionTree
  pub channels : ℕ → MqttChannel

abbrev pub on_channel : ℕ → (MqttChannel → MqttChannel) → Broker → Broker
on_channel id f broker = record broker {
  channels = λ other. if other == id then f (broker.channels id) else broker.channels other;
}

-- The packet that goes to a subscriber.
abbrev pub adjusted : PublishPacket → QoS → Option PacketId → PublishPacket
adjusted packet qos id = record packet { dup = false; qos = qos; retain = false; packet_id = id }

-- What `publish` does to the channel of one subscriber; a failing send is ignored.
unfoldable pub deliver : PublishPacket → QoS → MqttChannel → MqttChannel
unfolding allocate_packet_id send_publish
deliver packet sub_qos channel =
    let effective_qos = QoS.min packet.qos sub_qos in
    if needs_id effective_qos
    then (let (id, counted) = allocate_packet_id channel.session in
        let session = record counted {
          outbound_inflight = insert (λ a b. a == b) id packet counted.outbound_inflight;
        } in
        (send_publish (adjusted packet effective_qos (some id))
          (record channel { session = session })).1)
    else (send_publish (adjusted packet effective_qos none) channel).1

abbrev pub publish_found : PublishPacket → QoS → Option SubscriberEntry → Broker → Broker
publish_found packet sub_qos none broker = broker
publish_found packet sub_qos (some entry) broker =
    on_channel entry.channel (deliver packet sub_qos) broker

abbrev pub publish_to : Str → PublishPacket → Str × QoS → Broker → Broker
publish_to source_client_id packet (sub_id, sub_qos) broker =
    if str_eq sub_id source_client_id
    then broker
    else publish_found packet sub_qos (get str_eq sub_id broker.sessions) broker

-- The loop of `publish`.
abbrev pub publish_all : Str → PublishPacket → Subscribers → Broker → Broker
publish_all source_client_id packet [] broker = broker
publish_all source_client_id packet (sub ∷ subs) broker =
    publish_all source_client_id packet subs (publish_to source_client_id packet sub broker)

unfoldable pub publish : Str → PublishPacket → Broker → Broker
unfolding matching deliver
publish source_client_id packet broker =
    publish_all source_client_id packet (matching broker.subscriptions packet.topic) broker

abbrev pub is_some {ℓ} : {A : Type ℓ} → Option A → Bool
is_some none = false
is_some (some value) = true

unfoldable pub register_session : Str → ℕ → Option WillMessage → Bool → Broker → Bool × Broker
register_session client_id channel will clean_session broker =
    let existing = get str_eq client_id broker.sessions in
    let entry : SubscriberEntry = record {
      channel = channel;
      filters = [];
      will = will;
      clean_session = clean_session;
    } in
    (
      not clean_session && is_some existing,
      record broker {
        subscriptions =
            if clean_session
            then Tree.remove_client client_id broker.subscriptions
            else broker.subscriptions;
        sessions = insert str_eq client_id entry broker.sessions;
      },
    )

abbrev pub will_packet : WillMessage → PublishPacket
will_packet will = record {
  properties = Properties.default;
  topic = will.topic;
  payload = will.payload;
  dup = false;
  qos = will.qos;
  retain = will.retain;
  packet_id = none;
}

abbrev pub publish_will : Bool → Option WillMessage → Broker → Broker
publish_will graceful none broker = broker
publish_will graceful (some will) broker =
    if graceful then broker else publish [] (will_packet will) broker

-- `sessions.remove(..)` and `subscriptions.remove_client(..)`.
abbrev pub removed : Str → Broker → Broker
removed client_id broker = record broker {
  sessions = remove str_eq client_id broker.sessions;
  subscriptions = Tree.remove_client client_id broker.subscriptions;
}

-- The `let .. else` of `unregister_session`.
abbrev pub unregister_found : Str → Bool → Option SubscriberEntry → Broker → Broker
unregister_found client_id graceful none broker = broker
unregister_found client_id graceful (some entry) broker =
    publish_will graceful entry.will (removed client_id broker)

unfoldable pub unregister_session : Str → Bool → Broker → Broker
unfolding Tree.remove_client publish
unregister_session client_id graceful broker =
    unregister_found client_id graceful (get str_eq client_id broker.sessions) broker

-- Whether `validate_subscribe_filter` answers `Ok`.
abbrev pub accepts : Str → Bool
accepts filter = is_ok (validate_subscribe_filter filter)

-- The loop of `subscribe`, on the entry's filters and the tree.
abbrev pub subscribe_all :
    Str
    → List TopicFilter
    → List (Str × QoS)
    → SubscriptionTree
    → List SubackCode × List (Str × QoS) × SubscriptionTree
subscribe_all client_id [] filters tree = ([], filters, tree)
subscribe_all client_id (tf ∷ tfs) filters tree =
    let (codes, own, after) =
      subscribe_all client_id tfs (insert str_eq tf.filter tf.qos filters)
        (Tree.subscribe client_id tf.filter tf.qos tree) in
    let (codes', own', after') = subscribe_all client_id tfs filters tree in
    if accepts tf.filter
    then (granted tf.qos ∷ codes, own, after)
    else (failure ∷ codes', own', after')

abbrev pub subscribe_found :
    Str → List TopicFilter → Option SubscriberEntry → Broker → List SubackCode × Broker
subscribe_found client_id filters none broker = (map (λ _. failure) filters, broker)
subscribe_found client_id filters (some entry) broker =
    let (codes, own, tree) = subscribe_all client_id filters entry.filters broker.subscriptions in
    (
      codes,
      record broker {
        sessions = insert str_eq client_id (record entry { filters = own }) broker.sessions;
        subscriptions = tree;
      },
    )

unfoldable pub subscribe : Str → List TopicFilter → Broker → List SubackCode × Broker
unfolding Tree.subscribe
subscribe client_id filters broker =
    subscribe_found client_id filters (get str_eq client_id broker.sessions) broker

abbrev pub unsubscribe_all :
    Str → List Str → List (Str × QoS) → SubscriptionTree → List (Str × QoS) × SubscriptionTree
unsubscribe_all client_id [] filters tree = (filters, tree)
unsubscribe_all client_id (topic ∷ topics) filters tree =
    unsubscribe_all client_id topics (remove str_eq topic filters)
      (Tree.unsubscribe client_id topic tree)

abbrev pub unsubscribe_found : Str → List Str → Option SubscriberEntry → Broker → Broker
unsubscribe_found client_id topics none broker = broker
unsubscribe_found client_id topics (some entry) broker =
    let (own, tree) = unsubscribe_all client_id topics entry.filters broker.subscriptions in
    record broker {
      sessions = insert str_eq client_id (record entry { filters = own }) broker.sessions;
      subscriptions = tree;
    }

unfoldable pub unsubscribe : Str → List Str → Broker → Broker
unfolding Tree.unsubscribe
unsubscribe client_id topics broker =
    unsubscribe_found client_id topics (get str_eq client_id broker.sessions) broker
