-- ===== src/Broker/State/EndToEnd.antt =====
-- From a SUBSCRIBE to the packets that it brings.
use jack_hotaru_mqtt.Base.{
  ◌≡◌, ◌≢◌, refl, ◌∙◌, true, List, [], ◌∷◌, Str, str_eq, str_eq_refl, split, Option, some, get,
  arith,
}
use jack_hotaru_mqtt.Error.{ok}
use jack_hotaru_mqtt.Codes.QoS.{QoS}
use jack_hotaru_mqtt.Topic.{validate_subscribe_filter}
use jack_hotaru_mqtt.Request.{TopicFilter}
use jack_hotaru_mqtt.Packet.{PublishPacket}
use jack_hotaru_mqtt.Broker.Filter.{filter_matches}
use jack_hotaru_mqtt.Broker.Tree.Laws.{sub_of}
use jack_hotaru_mqtt.Broker.Tree.Matching.{matching-finds}
use jack_hotaru_mqtt.Broker.State.{Broker, SubscriberEntry, publish, subscribe, subscribe_all}
use jack_hotaru_mqtt.Broker.State.Subscribe.{subscribe_granted, asked}
use jack_hotaru_mqtt.Broker.State.Reach.{Queued, publish_reaches}

-- The entry of a subscriber after `subscribe`: the connection is the same.
pub subscribe-entry :
    (client_id : Str) (filters : List TopicFilter) (broker : Broker) (entry : SubscriberEntry)
    → get str_eq client_id broker.sessions ≡ some entry
    → (after : SubscriberEntry) × (get str_eq client_id
          (subscribe client_id filters broker).1.sessions
        ≡ some after)
      × (after.channel ≡ entry.channel)
unfolding subscribe
subscribe-entry client_id filters broker entry e =
    let own = (subscribe_all client_id filters entry.filters broker.subscriptions).1 in
    (record entry { filters = own }, rw (e, str_eq_refl client_id), refl)

pub same_channels :
    (client_id : Str) (filters : List TopicFilter) (broker : Broker)
    → (subscribe client_id filters broker).1.channels ≡ broker.channels
unfolding subscribe
same_channels client_id filters broker = ground arith

pub asked_once :
    (tf : TopicFilter) (old : Option QoS)
    → validate_subscribe_filter tf.filter ≡ ok tt
    → asked (tf ∷ []) tf.filter old ≡ some tf.qos
asked_once tf old valid = rw (valid, str_eq_refl tf.filter)

-- A client with a session subscribes with a valid filter; then a packet that another client publishes
-- to a topic that the filter matches stands, as a copy with the smaller of the two QoS, in the queue of
-- the subscriber's connection, if that is still being written.
pub subscribe-publish :
    (client_id source : Str) (tf : TopicFilter) (packet : PublishPacket) (broker : Broker)
    (entry : SubscriberEntry)
    → get str_eq client_id broker.sessions ≡ some entry
    → validate_subscribe_filter tf.filter ≡ ok tt
    → filter_matches tf.filter (split packet.topic) ≡ true
    → client_id ≢ source
    → (broker.channels entry.channel).listening ≡ true
    → let subscribed = (subscribe client_id (tf ∷ []) broker).1 in
      Queued packet tf.qos ((publish source packet subscribed).channels entry.channel)
subscribe-publish client_id source tf packet broker entry e valid matches other h =
    let after = (subscribe client_id (tf ∷ []) broker).1 in
    let (entry', e', same) = subscribe-entry client_id (tf ∷ []) broker entry e in
    let granted = (subscribe_granted client_id (tf ∷ []) broker entry e).1 tf.filter client_id in
    let own : sub_of tf.filter client_id after.subscriptions ≡ some tf.qos =
      granted ∙ rw (str_eq_refl client_id) (asked_once tf _ valid) in
    publish_reaches source packet client_id tf.qos after entry.channel
      (matching-finds after.subscriptions packet.topic tf.filter client_id tf.qos matches own)
      (other, entry', e', same) (rw (same_channels client_id (tf ∷ []) broker) h)
