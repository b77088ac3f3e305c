-- ===== src/Broker/Tree/Laws.antt =====
-- `SubscriptionTree` as a table: for each filter and client the QoS that the client asked for, if any.
use jack_hotaru_mqtt.Base.{
  ◌≡◌, refl, ◌&&◌, List, [], ◌∷◌, Str, str_eq, str_eq→eq, Option, none, some, get, remove,
  get-remove_str, str_eq_iff, Bool-cases, inl, inr, if◌then◌else◌, arith,
}
use jack_hotaru_mqtt.Codes.QoS.{QoS}
use jack_hotaru_mqtt.Broker.Tree.{
  SubscriptionTree, Subscribers, or_empty, subscribe, unsubscribe, remove_client, remove_from,
  remove_everywhere,
}

abbrev map_option : (Subscribers → Subscribers) → Option Subscribers → Option Subscribers
map_option f none = none
map_option f (some set) = some (f set)

abbrev pub sub_of : Str → Str → SubscriptionTree → Option QoS
sub_of filter client_id tree = get str_eq client_id (or_empty (get str_eq filter tree.subs))

-- After `subscribe` the client has the new QoS at the filter, and every other entry is as before.
pub sub_of-subscribe :
    (client_id filter : Str) (qos : QoS) (tree : SubscriptionTree) (c f : Str)
    → sub_of f c (subscribe client_id filter qos tree)
      ≡ (if str_eq f filter && str_eq c client_id then some qos else sub_of f c tree)
unfolding subscribe
sub_of-subscribe client_id filter qos tree c f =
    let set = or_empty (get str_eq filter tree.subs) in
    elim (Bool-cases (str_eq f filter)) [
      | inl same ↦ rw (same, get-remove_str c client_id set, str_eq→eq f filter same) (ground arith)
      | inr differs ↦ rw (differs, get-remove_str f filter tree.subs, differs)
    ]

get-remove_from :
    (client_id filter f : Str) (subs : List (Str × Subscribers))
    → get str_eq f (remove_from client_id filter subs) ≡ (
        if str_eq f filter
        then map_option (remove str_eq client_id) (get str_eq f subs)
        else get str_eq f subs)
get-remove_from client_id filter f [] = ground arith
get-remove_from client_id filter f ((key, set) ∷ subs) = ground (
  arith,
  get-remove_from client_id filter f subs,
  str_eq_iff f filter,
  str_eq_iff filter key,
  str_eq_iff f key,
)

get-remove_everywhere :
    (client_id f : Str) (subs : List (Str × Subscribers))
    → get str_eq f (remove_everywhere client_id subs)
      ≡ map_option (remove str_eq client_id) (get str_eq f subs)
get-remove_everywhere client_id f [] = refl
get-remove_everywhere client_id f ((key, set) ∷ subs) =
    ground (arith, get-remove_everywhere client_id f subs)

remove_option :
    (client_id c : Str) (set : Option Subscribers)
    → get str_eq c (or_empty (map_option (remove str_eq client_id) set))
      ≡ (if str_eq c client_id then none else get str_eq c (or_empty set))
remove_option client_id c none = ground arith
remove_option client_id c (some set) = get-remove_str c client_id set

-- After `unsubscribe` the client has no entry at the filter, and every other entry is as before.
pub sub_of-unsubscribe :
    (client_id filter : Str) (tree : SubscriptionTree) (c f : Str)
    → sub_of f c (unsubscribe client_id filter tree)
      ≡ (if str_eq f filter && str_eq c client_id then none else sub_of f c tree)
unfolding unsubscribe
sub_of-unsubscribe client_id filter tree c f = elim (Bool-cases (str_eq f filter)) [
  | inl same ↦ rw (
    get-remove_from client_id filter f tree.subs,
    same,
    remove_option client_id c (get str_eq f tree.subs),
  )
  | inr differs ↦ rw (get-remove_from client_id filter f tree.subs, differs)
]

-- After `remove_client` the client has no entry at any filter, and every other entry is as before.
pub sub_of-remove_client :
    (client_id : Str) (tree : SubscriptionTree) (c f : Str)
    → sub_of f c (remove_client client_id tree)
      ≡ (if str_eq c client_id then none else sub_of f c tree)
unfolding remove_client
sub_of-remove_client client_id tree c f = rw (
  get-remove_everywhere client_id f tree.subs,
  remove_option client_id c (get str_eq f tree.subs),
)
