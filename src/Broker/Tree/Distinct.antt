-- ===== src/Broker/Tree/Distinct.antt =====
-- The maps of the tree have one entry for each key, as a `DashMap` has.
use jack_hotaru_mqtt.Base.{
  ◌≡◌, refl, inl, inr, Bool-cases, List, [], ◌∷◌, Str, str_eq, none, get, remove, insert,
  get-remove_str, get-remove_same, All, arith,
}
use jack_hotaru_mqtt.Codes.QoS.{QoS}
use jack_hotaru_mqtt.Broker.Tree.{
  SubscriptionTree, Subscribers, or_empty, subscribe, unsubscribe, remove_client, remove_from,
  remove_everywhere,
}

abbrev pub IsMap {ℓ} : {V : Type ℓ} → List (Str × V) → Type ℓ
IsMap [] = Unit
IsMap ((k, v) ∷ m) = (get str_eq k m ≡ none) × IsMap m

pub remove-IsMap {ℓ} :
    {V : Type ℓ} (j : Str) (m : List (Str × V)) → IsMap m → IsMap (remove str_eq j m)
remove-IsMap j [] h = h
remove-IsMap j ((k, v) ∷ m) (fresh, rest) = elim (Bool-cases (str_eq j k)) [
  | inl same ↦ rw same (remove-IsMap j m rest)
  | inr differs ↦ rw differs (ground (arith, get-remove_str k j m), remove-IsMap j m rest)
]

pub insert-IsMap {ℓ} :
    {V : Type ℓ} (j : Str) (v : V) (m : List (Str × V)) → IsMap m → IsMap (insert str_eq j v m)
insert-IsMap j v m h = (get-remove_same str_eq j m, remove-IsMap j m h)

abbrev Sets : List (Str × Subscribers) → Type 0
Sets = All (λ (key, set). IsMap set)

-- One entry for each filter, and in it one for each client.
abbrev pub IsKept : SubscriptionTree → Type 0
IsKept tree = IsMap tree.subs × Sets tree.subs

set_of :
    (f : Str) (subs : List (Str × Subscribers)) → Sets subs → IsMap (or_empty (get str_eq f subs))
set_of f [] h = tt
set_of f ((key, set) ∷ subs) (own, rest) = elim (Bool-cases (str_eq f key)) [
  | inl same ↦ rw same own
  | inr differs ↦ rw differs (set_of f subs rest)
]

remove-Sets : (f : Str) (subs : List (Str × Subscribers)) → Sets subs → Sets (remove str_eq f subs)
remove-Sets f [] h = h
remove-Sets f ((key, set) ∷ subs) (own, rest) = elim (Bool-cases (str_eq f key)) [
  | inl same ↦ rw same (remove-Sets f subs rest)
  | inr differs ↦ rw differs (own, remove-Sets f subs rest)
]

pub subscribe-IsKept :
    (client_id filter : Str) (qos : QoS) (tree : SubscriptionTree)
    → IsKept tree
    → IsKept (subscribe client_id filter qos tree)
unfolding subscribe
subscribe-IsKept client_id filter qos tree (keys, sets) = (
  insert-IsMap filter (insert str_eq client_id qos (or_empty (get str_eq filter tree.subs)))
      tree.subs keys,
  (
    insert-IsMap client_id qos (or_empty (get str_eq filter tree.subs))
        (set_of filter tree.subs sets),
    remove-Sets filter tree.subs sets,
  ),
)

same_keys :
    (client_id f k : Str) (subs : List (Str × Subscribers))
    → get str_eq k subs ≡ none
    → get str_eq k (remove_from client_id f subs) ≡ none
same_keys client_id f k [] h = refl
same_keys client_id f k ((key, set) ∷ subs) h = ground (arith, same_keys client_id f k subs)

from-IsKept :
    (client_id f : Str) (subs : List (Str × Subscribers))
    → IsMap subs
    → Sets subs
    → IsMap (remove_from client_id f subs) × Sets (remove_from client_id f subs)
from-IsKept client_id f [] h s = (tt, tt)
from-IsKept client_id f ((key, set) ∷ subs) (fresh, keys) (own, sets) =
    elim (Bool-cases (str_eq f key)) [
      | inl same ↦ rw same ((fresh, keys), (remove-IsMap client_id set own, sets))
      | inr differs ↦
          (let (keys', sets') = from-IsKept client_id f subs keys sets in
            rw differs ((same_keys client_id f key subs fresh, keys'), (own, sets')))
    ]

pub unsubscribe-IsKept :
    (client_id filter : Str) (tree : SubscriptionTree)
    → IsKept tree
    → IsKept (unsubscribe client_id filter tree)
unfolding unsubscribe
unsubscribe-IsKept client_id filter tree (keys, sets) =
    from-IsKept client_id filter tree.subs keys sets

everywhere_keys :
    (client_id k : Str) (subs : List (Str × Subscribers))
    → get str_eq k subs ≡ none
    → get str_eq k (remove_everywhere client_id subs) ≡ none
everywhere_keys client_id k [] h = refl
everywhere_keys client_id k ((key, set) ∷ subs) h = ground (arith, everywhere_keys client_id k subs)

everywhere-IsKept :
    (client_id : Str) (subs : List (Str × Subscribers))
    → IsMap subs
    → Sets subs
    → IsMap (remove_everywhere client_id subs) × Sets (remove_everywhere client_id subs)
everywhere-IsKept client_id [] h s = (tt, tt)
everywhere-IsKept client_id ((key, set) ∷ subs) (fresh, keys) (own, sets) =
    let (keys', sets') = everywhere-IsKept client_id subs keys sets in
    ((everywhere_keys client_id key subs fresh, keys'), (remove-IsMap client_id set own, sets'))

pub remove_client-IsKept :
    (client_id : Str) (tree : SubscriptionTree)
    → IsKept tree
    → IsKept (remove_client client_id tree)
unfolding remove_client
remove_client-IsKept client_id tree (keys, sets) = everywhere-IsKept client_id tree.subs keys sets
