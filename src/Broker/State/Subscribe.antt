-- ===== src/Broker/State/Subscribe.antt =====
-- What `subscribe` and `unsubscribe` answer, and what they leave in the tree.
use jack_hotaru_mqtt.Base.{
  ◌≡◌, refl, inl, inr, ◌&&◌, Bool-cases, List, [], ◌∷◌, Str, str_eq, Option, none, some, get,
  insert, remove, map, any, if◌then◌else◌, arith,
}
use jack_hotaru_mqtt.Codes.QoS.{QoS}
use jack_hotaru_mqtt.Codes.SubackCode.{SubackCode, granted, failure}
use jack_hotaru_mqtt.Request.{TopicFilter}
use jack_hotaru_mqtt.Broker.Tree
use jack_hotaru_mqtt.Broker.Tree.{SubscriptionTree}
use jack_hotaru_mqtt.Broker.Tree.Laws.{sub_of, sub_of-subscribe, sub_of-unsubscribe}
use jack_hotaru_mqtt.Broker.State.{
  Broker, SubscriberEntry, subscribe, subscribe_all, accepts, unsubscribe, unsubscribe_all,
}

-- One code for each filter of the request, in order.
abbrev pub code_for : TopicFilter → SubackCode
code_for tf = if accepts tf.filter then granted tf.qos else failure

-- What the request leaves at a filter: the last accepted entry for it, or else what was there.
abbrev pub asked : List TopicFilter → Str → Option QoS → Option QoS
asked [] f old = old
asked (tf ∷ tfs) f old =
    asked tfs f (if accepts tf.filter && str_eq f tf.filter then some tf.qos else old)

all-codes :
    (client_id : Str) (tfs : List TopicFilter) (filters : List (Str × QoS))
    (tree : SubscriptionTree)
    → (subscribe_all client_id tfs filters tree).0 ≡ map code_for tfs
all-codes client_id [] filters tree = refl
all-codes client_id (tf ∷ tfs) filters tree = elim (Bool-cases (accepts tf.filter)) [
  | inl e ↦ rw (
    e,
    all-codes client_id tfs (insert str_eq tf.filter tf.qos filters)
        (Tree.subscribe client_id tf.filter tf.qos tree),
  )
  | inr e ↦ rw (e, all-codes client_id tfs filters tree)
]

pub all-sub_of :
    (client_id : Str) (tfs : List TopicFilter) (filters : List (Str × QoS))
    (tree : SubscriptionTree) (f c : Str)
    → sub_of f c (subscribe_all client_id tfs filters tree).2
      ≡ (if str_eq c client_id then asked tfs f (sub_of f c tree) else sub_of f c tree)
all-sub_of client_id [] filters tree f c = ground arith
all-sub_of client_id (tf ∷ tfs) filters tree f c = elim (Bool-cases (accepts tf.filter)) [
  | inl e ↦
      rw
        (
          e,
          all-sub_of client_id tfs (insert str_eq tf.filter tf.qos filters)
              (Tree.subscribe client_id tf.filter tf.qos tree) f c,
          sub_of-subscribe client_id tf.filter tf.qos tree c f,
        )
        (ground arith)
  | inr e ↦ rw (e, all-sub_of client_id tfs filters tree f c)
]

-- A client with a session is answered one code for each filter, in order: the QoS it asked for where
-- the filter is valid, and failure otherwise. In the tree the accepted filters have that QoS for the
-- client, the last one where a filter is named twice, and every other entry is as before.
pub subscribe_granted :
    (client_id : Str) (filters : List TopicFilter) (broker : Broker) (entry : SubscriberEntry)
    → get str_eq client_id broker.sessions ≡ some entry
    → let (codes, after) = subscribe client_id filters broker in
      (codes ≡ map code_for filters)
      × ((f c : Str)
          → sub_of f c after.subscriptions ≡ (
              if str_eq c client_id
              then asked filters f (sub_of f c broker.subscriptions)
              else sub_of f c broker.subscriptions))
unfolding subscribe
subscribe_granted client_id filters broker entry e = (
  rw (e, all-codes client_id filters entry.filters broker.subscriptions),
  λ f c. rw (e, all-sub_of client_id filters entry.filters broker.subscriptions f c),
)

pub all-sub_of_unsubscribe :
    (client_id : Str) (topics : List Str) (filters : List (Str × QoS)) (tree : SubscriptionTree)
    (f c : Str)
    → sub_of f c (unsubscribe_all client_id topics filters tree).1
      ≡ (if str_eq c client_id && any (str_eq f) topics then none else sub_of f c tree)
all-sub_of_unsubscribe client_id [] filters tree f c = ground arith
all-sub_of_unsubscribe client_id (topic ∷ topics) filters tree f c =
    rw
      (
        all-sub_of_unsubscribe client_id topics (remove str_eq topic filters)
            (Tree.unsubscribe client_id topic tree) f c,
        sub_of-unsubscribe client_id topic tree c f,
      )
      (ground arith)

-- After `unsubscribe` a client with a session has no entry in the tree at the named filters, and every
-- other entry is as before.
pub unsubscribe_removed :
    (client_id : Str) (topics : List Str) (broker : Broker) (entry : SubscriberEntry) (f c : Str)
    → get str_eq client_id broker.sessions ≡ some entry
    → sub_of f c (unsubscribe client_id topics broker).subscriptions ≡ (
        if str_eq c client_id && any (str_eq f) topics
        then none
        else sub_of f c broker.subscriptions)
unfolding unsubscribe
unsubscribe_removed client_id topics broker entry f c e =
    rw (e, all-sub_of_unsubscribe client_id topics entry.filters broker.subscriptions f c)
