-- ===== src/Broker/Filter/Meaning.antt =====
-- What the matching loop decides, described without it.
use jack_hotaru_mqtt.Base.{
  ◌≡◌, ◌≢◌, ◌↔◌, ◌⊎◌, inl, inr, refl, ap, true, List, [], ◌∷◌, ◌++◌, Str, bytes, str_eq, str_eq_iff,
  split, arith, Bool-cases,
}
use jack_hotaru_mqtt.Broker.Filter.{match_segments, filter_matches}

-- As many segments on both sides, and each is `+` or the same text, and none is `#`.
abbrev pub Level : List Str → List Str → Type 0
Level [] [] = Unit {0}
Level [] (t ∷ topic) = ⊥
Level (seg ∷ filter) [] = ⊥
Level (seg ∷ filter) (t ∷ topic) =
    (seg ≢ bytes "#") × ((seg ≡ bytes "+") ⊎ (seg ≡ t)) × Level filter topic

-- A `#` after segments that match level by level; any number of topic segments is left for it.
abbrev pub Under : List Str → List Str → Type 0
Under filter topic =
    (before after front back : List Str) × (filter ≡ before ++ (bytes "#" ∷ after))
    × (topic ≡ front ++ back)
    × Level before front

Level-matches : (filter topic : List Str) → Level filter topic → match_segments filter topic ≡ true
unfolding match_segments
Level-matches [] [] h = refl
Level-matches [] (t ∷ topic) h = absurd h
Level-matches (seg ∷ filter) [] h = absurd h
Level-matches (seg ∷ filter) (t ∷ topic) h = ground (
  arith,
  str_eq_iff seg (bytes "#"),
  str_eq_iff seg (bytes "+"),
  str_eq_iff seg t,
  Level-matches filter topic h.2,
)

hash_matches :
    (before after front back : List Str)
    → Level before front
    → match_segments (before ++ (bytes "#" ∷ after)) (front ++ back) ≡ true
unfolding match_segments
hash_matches [] after [] [] h = refl
hash_matches [] after [] (t ∷ back) h = refl
hash_matches [] after (t ∷ front) back h = absurd h
hash_matches (seg ∷ before) after [] back h = absurd h
hash_matches (seg ∷ before) after (t ∷ front) back h = ground (
  arith,
  str_eq_iff seg (bytes "#"),
  str_eq_iff seg (bytes "+"),
  str_eq_iff seg t,
  hash_matches before after front back h.2,
)

Under-here : (seg : Str) (filter topic : List Str) → seg ≡ bytes "#" → Under (seg ∷ filter) topic
Under-here seg filter topic e = ([], filter, [], topic, ap (λ s. s ∷ filter) e, refl, tt)

meaning_cons :
    (seg t : Str) (filter topic : List Str)
    → seg ≢ bytes "#"
    → (seg ≡ bytes "+") ⊎ (seg ≡ t)
    → Level filter topic ⊎ Under filter topic
    → Level (seg ∷ filter) (t ∷ topic) ⊎ Under (seg ∷ filter) (t ∷ topic)
meaning_cons seg t filter topic plain here (inl level) = inl (plain, here, level)
meaning_cons seg t filter topic plain here (inr (before, after, front, back, e, e', level)) = inr (
  seg ∷ before,
  after,
  t ∷ front,
  back,
  ap (λ s. seg ∷ s) e,
  ap (λ s. t ∷ s) e',
  (plain, here, level),
)

meaning :
    (filter topic : List Str)
    → match_segments filter topic ≡ true
    → Level filter topic ⊎ Under filter topic
unfolding match_segments
meaning [] [] h = inl tt
meaning [] (t ∷ topic) h = cc
meaning (seg ∷ filter) [] h = inr (Under-here seg filter [] ((str_eq_iff seg (bytes "#")).0 h))
meaning (seg ∷ filter) (t ∷ topic) h = elim (Bool-cases (str_eq seg (bytes "#"))) [
  | inl hash ↦ inr (Under-here seg filter (t ∷ topic) ((str_eq_iff seg (bytes "#")).0 hash))
  | inr plain ↦
      meaning_cons seg t filter topic (ground (arith, str_eq_iff seg (bytes "#")))
        (ground (arith, str_eq_iff seg (bytes "+"), str_eq_iff seg t))
        (meaning filter topic (ground arith))
]

-- A filter matches a topic exactly if they agree level by level, `+` standing for any one level, or
-- if the levels before some `#` in the filter agree so with the first levels of the topic.
pub filter_matches_iff :
    (filter : Str) (topic_segs : List Str)
    → (filter_matches filter topic_segs ≡ true)
      ↔ (Level (split filter) topic_segs ⊎ Under (split filter) topic_segs)
unfolding filter_matches
filter_matches_iff filter topic_segs = (
  meaning (split filter) topic_segs,
  λ h. elim h [
    | inl level ↦ Level-matches (split filter) topic_segs level
    | inr (before, after, front, back, e, e', level) ↦
        rw (e, e') (hash_matches before after front back level)
  ],
)
