-- ===== src/Broker/Tree/Matching.antt =====
-- `matching` against the table of the subscriptions.
use jack_hotaru_mqtt.Base.{
  Any-left, Any-right, ◌≡◌, ap₂, sym, inl, inr, true, Bool-cases, List, [], ◌∷◌, Str, str_eq,
  str_eq→eq, split, some, get, Any,
}
use jack_hotaru_mqtt.Codes.QoS.{QoS}
use jack_hotaru_mqtt.Broker.Filter.{filter_matches}
use jack_hotaru_mqtt.Broker.Tree.{SubscriptionTree, Subscribers, matching, matching_subs, or_empty}
use jack_hotaru_mqtt.Broker.Tree.Laws.{sub_of}

abbrev pub Lists : Str → QoS → Subscribers → Type 0
Lists client_id q = Any (λ sub. sub ≡ (client_id, q))

some-injective {ℓ} : {A : Type ℓ} {a b : A} → some a ≡ some b → a ≡ b
some-injective e = cc

listed :
    (client_id : Str) (q : QoS) (set : Subscribers)
    → get str_eq client_id set ≡ some q
    → Lists client_id q set
listed client_id q [] e = cc
listed client_id q ((c, q') ∷ set) e = elim (Bool-cases (str_eq client_id c)) [
  | inl here ↦
      (let same : some q' ≡ some q = rw here at e in
        inl (ap₂ (λ a b. (a, b)) (sym (str_eq→eq client_id c here)) (some-injective same)))
  | inr later ↦
      (let rest : get str_eq client_id set ≡ some q = rw later at e in
        inr (listed client_id q set rest))
]

finds :
    (f client_id : Str) (q : QoS) (segs : List Str) (subs : List (Str × Subscribers))
    → filter_matches f segs ≡ true
    → get str_eq client_id (or_empty (get str_eq f subs)) ≡ some q
    → Lists client_id q (matching_subs segs subs)
finds f client_id q segs [] m e = cc
finds f client_id q segs ((key, set) ∷ subs) m e = elim (Bool-cases (str_eq f key)) [
  | inl here ↦
      (let own : get str_eq client_id set ≡ some q = rw here at e in
        let matches : filter_matches key segs ≡ true = rw (← str_eq→eq f key here) m in
        rw matches (Any-left (λ sub. sub ≡ (client_id, q)) set _ (listed client_id q set own)))
  | inr later ↦
      (let rest : get str_eq client_id (or_empty (get str_eq f subs)) ≡ some q = rw later at e in
        let found = finds f client_id q segs subs m rest in
        elim (Bool-cases (filter_matches key segs)) [
          | inl matches ↦ rw matches (Any-right (λ sub. sub ≡ (client_id, q)) set _ found)
          | inr differs ↦ rw differs found
        ])
]

-- `matching` finds every subscription whose filter matches the topic.
pub matching-finds :
    (tree : SubscriptionTree) (topic f client_id : Str) (q : QoS)
    → filter_matches f (split topic) ≡ true
    → sub_of f client_id tree ≡ some q
    → Any (λ sub. sub ≡ (client_id, q)) (matching tree topic)
unfolding matching
matching-finds tree topic f client_id q = finds f client_id q (split topic) tree.subs
