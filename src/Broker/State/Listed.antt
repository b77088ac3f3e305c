-- ===== src/Broker/State/Listed.antt =====
-- What `matching` lists in the states that the broker's operations lead to: the subscriptions, and
-- nothing else.
use jack_hotaru_mqtt.Base.{
  ◌≡◌, refl, ap, ◌↔◌, ◌⊎◌, inl, inr, true, false, Bool, Bool-cases, List, [], ◌∷◌, ◌++◌, Str,
  str_eq, str_eq_refl, str_eq→eq, split, Option, none, some, get, Any, if◌then◌else◌,
}
use jack_hotaru_mqtt.Codes.QoS.{QoS}
use jack_hotaru_mqtt.Request.{TopicFilter}
use jack_hotaru_mqtt.Broker.Filter.{filter_matches}
use jack_hotaru_mqtt.Broker.Tree
use jack_hotaru_mqtt.Broker.Tree.{SubscriptionTree, Subscribers, matching, matching_subs, or_empty}
use jack_hotaru_mqtt.Broker.Tree.Distinct.{
  IsMap, IsKept, subscribe-IsKept, unsubscribe-IsKept, remove_client-IsKept,
}
use jack_hotaru_mqtt.Broker.Tree.Laws.{sub_of}
use jack_hotaru_mqtt.Broker.Tree.Matching.{Lists, matching-finds}
use jack_hotaru_mqtt.Broker.State.{
  Broker, SubscriberEntry, accepts, register_session, unregister_session, unregister_found, removed,
  subscribe, subscribe_found, subscribe_all, unsubscribe, unsubscribe_found, unsubscribe_all,
}
use jack_hotaru_mqtt.Broker.State.Owned.{publish-keeps, publish_will-keeps}
use jack_hotaru_mqtt.Broker.State.Reachable.{
  Reachable, start, registered, unregistered, subscribed, unsubscribed, published, moved,
}

register-IsKept :
    (client_id : Str) (tree : SubscriptionTree) (clean_session : Bool)
    → IsKept tree
    → IsKept (if clean_session then Tree.remove_client client_id tree else tree)
register-IsKept client_id tree true kept = remove_client-IsKept client_id tree kept
register-IsKept client_id tree false kept = kept

unregistered-IsKept :
    (client_id : Str) (graceful : Bool) (found : Option SubscriberEntry) (broker : Broker)
    → IsKept broker.subscriptions
    → IsKept (unregister_found client_id graceful found broker).subscriptions
unregistered-IsKept client_id graceful none broker kept = kept
unregistered-IsKept client_id graceful (some entry) broker kept =
    rw (publish_will-keeps graceful entry.will (removed client_id broker)).1
      (remove_client-IsKept client_id broker.subscriptions kept)

all-IsKept :
    (client_id : Str) (tfs : List TopicFilter) (own : List (Str × QoS)) (tree : SubscriptionTree)
    → IsKept tree
    → IsKept (subscribe_all client_id tfs own tree).2
all-IsKept client_id [] own tree kept = kept
all-IsKept client_id (tf ∷ tfs) own tree kept = elim (Bool-cases (accepts tf.filter)) [
  | inl valid ↦ rw valid (
      all-IsKept client_id tfs _ (Tree.subscribe client_id tf.filter tf.qos tree)
        (subscribe-IsKept client_id tf.filter tf.qos tree kept))
  | inr invalid ↦ rw invalid (all-IsKept client_id tfs own tree kept)
]

subscribed-IsKept :
    (client_id : Str) (tfs : List TopicFilter) (found : Option SubscriberEntry) (broker : Broker)
    → IsKept broker.subscriptions
    → IsKept (subscribe_found client_id tfs found broker).1.subscriptions
subscribed-IsKept client_id tfs none broker kept = kept
subscribed-IsKept client_id tfs (some entry) broker kept =
    all-IsKept client_id tfs entry.filters broker.subscriptions kept

all_unsubscribed-IsKept :
    (client_id : Str) (topics : List Str) (own : List (Str × QoS)) (tree : SubscriptionTree)
    → IsKept tree
    → IsKept (unsubscribe_all client_id topics own tree).1
all_unsubscribed-IsKept client_id [] own tree kept = kept
all_unsubscribed-IsKept client_id (topic ∷ topics) own tree kept =
    all_unsubscribed-IsKept client_id topics _ (Tree.unsubscribe client_id topic tree)
      (unsubscribe-IsKept client_id topic tree kept)

unsubscribed-IsKept :
    (client_id : Str) (topics : List Str) (found : Option SubscriberEntry) (broker : Broker)
    → IsKept broker.subscriptions
    → IsKept (unsubscribe_found client_id topics found broker).subscriptions
unsubscribed-IsKept client_id topics none broker kept = kept
unsubscribed-IsKept client_id topics (some entry) broker kept =
    all_unsubscribed-IsKept client_id topics entry.filters broker.subscriptions kept

Reachable-IsKept : {broker : Broker} → Reachable broker → IsKept broker.subscriptions
unfolding register_session unregister_session subscribe unsubscribe
Reachable-IsKept (start channels) = (tt, tt)
Reachable-IsKept (registered {broker} client_id channel will clean_session before) =
    register-IsKept client_id broker.subscriptions clean_session (Reachable-IsKept before)
Reachable-IsKept (unregistered {broker} client_id graceful before) =
    unregistered-IsKept client_id graceful (get str_eq client_id broker.sessions) broker
      (Reachable-IsKept before)
Reachable-IsKept (subscribed {broker} client_id filters before) =
    subscribed-IsKept client_id filters (get str_eq client_id broker.sessions) broker
      (Reachable-IsKept before)
Reachable-IsKept (unsubscribed {broker} client_id topics before) =
    unsubscribed-IsKept client_id topics (get str_eq client_id broker.sessions) broker
      (Reachable-IsKept before)
Reachable-IsKept (published {broker} source packet before) =
    rw (publish-keeps source packet broker).1 (Reachable-IsKept before)
Reachable-IsKept (moved channels before) = Reachable-IsKept before

stands :
    (client_id : Str) (q : QoS) (set : Subscribers)
    → IsMap set
    → Lists client_id q set
    → get str_eq client_id set ≡ some q
stands client_id q [] h there = absurd there
stands client_id q ((c, q') ∷ set) (fresh, rest) (inl here) =
    rw (← ap (λ (p : Str × QoS). p.0) here, str_eq_refl c) (ap (λ (p : Str × QoS). some p.1) here)
stands client_id q ((c, q') ∷ set) (fresh, rest) (inr later) =
    let found = stands client_id q set rest later in
    elim (Bool-cases (str_eq client_id c)) [
      | inl same ↦
          (let none_here : get str_eq client_id set ≡ none =
              rw (str_eq→eq client_id c same) fresh in
            absurd (cc (none_here, found)))
      | inr differs ↦ rw differs found
    ]

Any-split {ℓ} :
    {A : Type ℓ} (P : A → Type 0) (xs ys : List A) → Any P (xs ++ ys) → Any P xs ⊎ Any P ys
Any-split P [] ys h = inr h
Any-split P (x ∷ xs) ys (inl here) = inl (inl here)
Any-split P (x ∷ xs) ys (inr later) = elim (Any-split P xs ys later) [
  | inl left ↦ inl (inr left)
  | inr right ↦ inr right
]

-- A subscription of a list of filters and their clients that matches the levels of a topic.
abbrev Stands : Str → QoS → List Str → List (Str × Subscribers) → Type 0
Stands client_id q segs subs =
    (f : Str) × (filter_matches f segs ≡ true)
    × (get str_eq client_id (or_empty (get str_eq f subs)) ≡ some q)

behind :
    (client_id : Str) (q : QoS) (segs : List Str) (key : Str) (set : Subscribers)
    (subs : List (Str × Subscribers))
    → get str_eq key subs ≡ none
    → Stands client_id q segs subs
    → Stands client_id q segs ((key, set) ∷ subs)
behind client_id q segs key set subs fresh (f, matches, e) = elim (Bool-cases (str_eq f key)) [
  | inl same ↦
      (let none_here : get str_eq client_id (or_empty (get str_eq f subs)) ≡ none =
          rw (str_eq→eq f key same, fresh) refl in
        absurd (cc (none_here, e)))
  | inr differs ↦ (f, matches, rw differs e)
]

from_list :
    (client_id : Str) (q : QoS) (segs : List Str) (subs : List (Str × Subscribers))
    → IsKept (record { subs = subs })
    → Lists client_id q (matching_subs segs subs)
    → Stands client_id q segs subs
from_list client_id q segs [] kept there = absurd there
from_list client_id q segs ((key, set) ∷ subs) ((fresh, keys), (own, sets)) there =
    elim (Bool-cases (filter_matches key segs)) [
      | inl matches ↦
          elim (Any-split (λ sub. sub ≡ (client_id, q)) set (matching_subs segs subs)
            (rw matches at there)) [
              | inl here ↦ (key, matches, rw (str_eq_refl key) (stands client_id q set own here))
              | inr later ↦
                  behind client_id q segs key set subs fresh
                    (from_list client_id q segs subs (keys, sets) later)
            ]
      | inr differs ↦
          behind client_id q segs key set subs fresh
            (from_list client_id q segs subs (keys, sets) (rw differs at there))
    ]

-- In every state that the operations lead to, `matching` lists a client with a QoS exactly if the client
-- has a subscription with that QoS at some filter that matches the topic: the tree is the table of the
-- subscriptions, and nothing in its order or its empty sets is seen.
pub matching_iff :
    (broker : Broker) (topic client_id : Str) (q : QoS)
    → Reachable broker
    → Any (λ sub. sub ≡ (client_id, q)) (matching broker.subscriptions topic) ↔ (
        (f : Str) × (filter_matches f (split topic) ≡ true)
        × (sub_of f client_id broker.subscriptions ≡ some q))
unfolding matching
matching_iff broker topic client_id q reachable = (
  from_list client_id q (split topic) broker.subscriptions.subs (Reachable-IsKept reachable),
  λ (f, matches, e). matching-finds broker.subscriptions topic f client_id q matches e,
)
