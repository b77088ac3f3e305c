-- ===== src/Broker/Tree.antt =====
-- src/broker.rs: `SubscriptionTree`, the filters with the clients that subscribed to each. A `DashMap`
-- promises no order of iteration; the order of the list is one.
pub mod Distinct
pub mod Laws
pub mod Matching
use jack_hotaru_mqtt.Base.{
  List, [], ◌∷◌, ◌++◌, Str, str_eq, split, Option, none, some, get, remove, insert, if◌then◌else◌,
  Bool, true, false, map,
}
use jack_hotaru_mqtt.Codes.QoS.{QoS}
use jack_hotaru_mqtt.Broker.Filter.{filter_matches}

-- The clients of a filter, with the largest QoS that each asked for.
abbrev pub Subscribers : Type 0
Subscribers = List (Str × QoS)

pub record SubscriptionTree : Type 0 where
  pub subs : List (Str × Subscribers)

abbrev pub new : SubscriptionTree
new = record { subs = [] }

abbrev pub or_empty : Option Subscribers → Subscribers
or_empty none = []
or_empty (some set) = set

unfoldable pub subscribe : Str → Str → QoS → SubscriptionTree → SubscriptionTree
subscribe client_id filter qos tree =
    let set = or_empty (get str_eq filter tree.subs) in
    record { subs = insert str_eq filter (insert str_eq client_id qos set) tree.subs }

-- The set is changed where it stands.
abbrev pub remove_from : Str → Str → List (Str × Subscribers) → List (Str × Subscribers)
remove_from client_id filter [] = []
remove_from client_id filter ((key, set) ∷ subs) =
    let rest = remove_from client_id filter subs in
    if str_eq filter key then (key, remove str_eq client_id set) ∷ subs else (key, set) ∷ rest

unfoldable pub unsubscribe : Str → Str → SubscriptionTree → SubscriptionTree
unsubscribe client_id filter tree = record { subs = remove_from client_id filter tree.subs }

abbrev pub remove_everywhere : Str → List (Str × Subscribers) → List (Str × Subscribers)
remove_everywhere client_id [] = []
remove_everywhere client_id ((key, set) ∷ subs) =
    (key, remove str_eq client_id set) ∷ remove_everywhere client_id subs

unfoldable pub remove_client : Str → SubscriptionTree → SubscriptionTree
remove_client client_id tree = record { subs = remove_everywhere client_id tree.subs }

abbrev pub matching_subs : List Str → List (Str × Subscribers) → Subscribers
matching_subs topic_segs [] = []
matching_subs topic_segs ((key, set) ∷ subs) =
    let rest = matching_subs topic_segs subs in
    if filter_matches key topic_segs then set ++ rest else rest

unfoldable pub matching : SubscriptionTree → Str → Subscribers
matching tree topic = matching_subs (split topic) tree.subs
