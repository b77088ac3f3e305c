-- ===== src/Topic.antt =====
-- src/topic.rs: topic and filter grammar. `PathPattern` is hotaru_core's: the type, its variants and
-- the match on them are a parameter.
pub mod Agreement
pub mod Grammar
pub mod Segments
use jack_hotaru_mqtt.Base.{
  ℕ, ◌≡◌, ◌+◌, ◌-◌, List, [], ◌∷◌, Str, bytes, str_eq, contains, split, join, length, is_empty, ltb,
  ◌==◌, not, map, if◌then◌else◌, Bool, ◌||◌,
}
use jack_hotaru_mqtt.Error.{
  Result, ok, err, ◌>>=◌, ◌>>◌, guard, MqttError, protocol, empty_topic, topic_too_long,
  wildcard_in_publish_topic, hash_wildcard_not_terminal, wildcard_mixed_with_literal,
}

abbrev pub max_topic_len : ℕ
max_topic_len = 65535

-- The variants that a match on `hotaru_core::url::PathPattern` tells apart; `R` is the payload of
-- `Regex`, which this code never looks at.
pub data Pattern (R : Type 0) : Type 0 where
  literal : Str → Pattern R
  any_one : Pattern R
  regex : R → Pattern R
  any_path : Pattern R

-- What hotaru_core gives: the enum, building a variant, and matching on one.
pub record PathPatterns : Type 1 where
  pub PathPattern : Type 0
  pub Regex : Type 0
  pub build : Pattern Regex → PathPattern
  pub match : PathPattern → Pattern Regex
  pub match-build : (v : Pattern Regex) → match (build v) ≡ v

abbrev pub has_wildcard : Str → Bool
has_wildcard seg = contains b'+' seg || contains b'#' seg

-- The tests at the head of all four functions.
abbrev pub check_length : Str → Result (Unit {0})
check_length topic = do
  guard (not (is_empty topic)) (protocol empty_topic)
  guard (not (ltb max_topic_len (length topic))) (protocol topic_too_long)

-- The loop of `validate_subscribe_filter`, at segment `i`.
unfoldable pub check_filter : (last_idx i : ℕ) → List Str → Result (Unit {0})
check_filter last_idx i [] = ok tt
check_filter last_idx i (seg ∷ segs) =
    let rest = check_filter last_idx (i + 1) segs in
    if str_eq seg (bytes "+")
    then rest
    else if str_eq seg (bytes "#")
    then (if i == last_idx then rest else err (protocol hash_wildcard_not_terminal))
    else if has_wildcard seg
    then err (protocol wildcard_mixed_with_literal)
    else rest

unfoldable pub validate_subscribe_filter : Str → Result (Unit {0})
unfolding check_filter
validate_subscribe_filter filter = do
  check_length filter
  check_filter (length (split filter) - 1) 0 (split filter)

unfoldable pub check_topic : List Str → Result (Unit {0})
check_topic [] = ok tt
check_topic (seg ∷ segs) =
    let rest = check_topic segs in
    if has_wildcard seg then err (protocol wildcard_in_publish_topic) else rest

unfoldable pub validate_publish_topic : Str → Result (Unit {0})
unfolding check_topic
validate_publish_topic topic = do check_length topic; check_topic (split topic)

module _ (core : PathPatterns) where
  open core use {PathPattern, build, match}

  -- The loop of `parse_subscribe_filter`; `patterns` grows at its end.
  unfoldable pub parse_filter : (last_idx i : ℕ) → List Str → Result (List PathPattern)
  parse_filter last_idx i [] = ok []
  parse_filter last_idx i (seg ∷ segs) =
      let rest = parse_filter last_idx (i + 1) segs in
      if str_eq seg (bytes "+")
      then (do patterns ← rest; ok (build any_one ∷ patterns))
      else if str_eq seg (bytes "#")
      then (if i == last_idx
          then (do patterns ← rest; ok (build any_path ∷ patterns))
          else err (protocol hash_wildcard_not_terminal))
      else if has_wildcard seg
      then err (protocol wildcard_mixed_with_literal)
      else (do patterns ← rest; ok (build (literal seg) ∷ patterns))

  unfoldable pub parse_subscribe_filter : Str → Result (List PathPattern)
  parse_subscribe_filter filter = do
    check_length filter
    parse_filter (length (split filter) - 1) 0 (split filter)

  unfoldable pub parse_topic : List Str → Result (List PathPattern)
  parse_topic [] = ok []
  parse_topic (seg ∷ segs) =
      let rest = parse_topic segs in
      if has_wildcard seg
      then err (protocol wildcard_in_publish_topic)
      else (do patterns ← rest; ok (build (literal seg) ∷ patterns))

  unfoldable pub parse_publish_topic : Str → Result (List PathPattern)
  parse_publish_topic topic = do check_length topic; parse_topic (split topic)

  unfoldable pub segment_of : PathPattern → Str
  segment_of p = elim (match p) [
    | literal s ↦ s
    | any_one ↦ bytes "+"
    | regex r ↦ bytes "+"
    | any_path ↦ bytes "#"
  ]

  unfoldable pub path_to_wire_filter : List PathPattern → Str
  unfolding segment_of
  path_to_wire_filter path = join (map segment_of path)
