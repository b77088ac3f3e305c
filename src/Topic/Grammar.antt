-- ===== src/Topic/Grammar.antt =====
-- The accepted texts, described without the code's loops, and the way back from patterns to text.
use jack_hotaru_mqtt.Base.{
  ℕ, ◌+◌, ◌-◌, ◌≤◌, ◌≡◌, ◌≢◌, ◌↔◌, ◌⊎◌, refl, List, [], ◌∷◌, Str, bytes, str_eq, if◌then◌else◌,
  str_eq_iff, split, length, arith, contains, false, any, map, join, ap, ◌∙◌,
}
use jack_hotaru_mqtt.Error.{Result, ok, err, ◌>>=◌, ◌>>◌, >>=-eq-ok}
use jack_hotaru_mqtt.Topic.{
  Pattern, literal, any_one, any_path, regex, PathPatterns, has_wildcard, check_length,
  check_filter, validate_subscribe_filter, check_topic, validate_publish_topic, parse_filter,
  parse_subscribe_filter, max_topic_len, segment_of, path_to_wire_filter,
}
use jack_hotaru_mqtt.Topic.Segments.{join-split, contains-split, split-ne-nil}

-- `#` stands last; `+` stands anywhere; any other segment has no wildcard in it.
abbrev pub IsFilter : List Str → Type 0
IsFilter [] = Unit {0}
IsFilter (seg ∷ segs) =
    (((seg ≡ bytes "#") × (segs ≡ [])) ⊎ ((seg ≡ bytes "+") ⊎ (has_wildcard seg ≡ false)))
    × IsFilter segs

check_filter_iff :
    (last_idx i : ℕ) (segs : List Str)
    → last_idx + 1 ≡ i + length segs
    → (check_filter last_idx i segs ≡ ok tt) ↔ IsFilter segs
unfolding check_filter
check_filter_iff last_idx i [] h = (λ e. tt, λ u. refl)
check_filter_iff last_idx i (seg ∷ []) h =
    ground (arith, str_eq_iff seg (bytes "+"), str_eq_iff seg (bytes "#"))
check_filter_iff last_idx i (seg ∷ next ∷ segs) h = ground (
  arith,
  str_eq_iff seg (bytes "+"),
  str_eq_iff seg (bytes "#"),
  check_filter_iff last_idx (i + 1) (next ∷ segs),
)

check_length_iff :
    (text : Str) → (check_length text ≡ ok tt) ↔ ((text ≢ []) × (length text ≤ max_topic_len))
check_length_iff [] = ground arith
check_length_iff (b ∷ text) = ground arith

>>_iff : (m k : Result (Unit {0})) → ((m >> k) ≡ ok tt) ↔ ((m ≡ ok tt) × (k ≡ ok tt))
>>_iff (ok u) k = ((λ e. (refl, e)), λ p. p.1)
>>_iff (err e) k = ground arith

last_segment_of : (segs : List Str) → segs ≢ [] → length segs - 1 + 1 ≡ 0 + length segs
last_segment_of [] h = absurd (h refl)
last_segment_of (seg ∷ segs) h = omega arith

last_segment : (text : Str) → length (split text) - 1 + 1 ≡ 0 + length (split text)
last_segment text = last_segment_of (split text) (split-ne-nil text)

-- A SUBSCRIBE filter is accepted exactly if it is not empty, has at most 65535 bytes, and each of
-- its segments is `+`, or `#` in the last place, or free of wildcards.
pub validate_subscribe_filter_iff :
    (filter : Str)
    → (validate_subscribe_filter filter ≡ ok tt)
      ↔ ((filter ≢ []) × (length filter ≤ max_topic_len) × IsFilter (split filter))
unfolding validate_subscribe_filter
validate_subscribe_filter_iff filter = ground (
  arith,
  >>_iff (check_length filter) (check_filter (length (split filter) - 1) 0 (split filter)),
  check_length_iff filter,
  check_filter_iff (length (split filter) - 1) 0 (split filter) (last_segment filter),
)

has_wildcard-segments :
    (segs : List Str)
    → (check_topic segs ≡ ok tt)
      ↔ ((any (contains b'+') segs ≡ false) × (any (contains b'#') segs ≡ false))
unfolding check_topic
has_wildcard-segments [] = ground arith
has_wildcard-segments (seg ∷ segs) = ground (arith, has_wildcard-segments segs)

-- A PUBLISH topic is accepted exactly if it is not empty, has at most 65535 bytes, and holds
-- neither `+` nor `#`.
pub validate_publish_topic_iff :
    (topic : Str)
    → (validate_publish_topic topic ≡ ok tt)
      ↔ ((topic ≢ []) × (length topic ≤ max_topic_len) × (has_wildcard topic ≡ false))
unfolding validate_publish_topic
validate_publish_topic_iff topic = ground (
  arith,
  >>_iff (check_length topic) (check_topic (split topic)),
  check_length_iff topic,
  has_wildcard-segments (split topic),
  contains-split b'+' topic (λ e. ground arith),
  contains-split b'#' topic (λ e. ground arith),
)

module _ (core : PathPatterns) where
  open core use {PathPattern}

  text_of : Pattern core.Regex → Str
  text_of (literal s) = s
  text_of any_one = bytes "+"
  text_of (regex r) = bytes "+"
  text_of any_path = bytes "#"

  segment_of-build : (v : Pattern core.Regex) → segment_of core (core.build v) ≡ text_of v
  unfolding segment_of text_of
  segment_of-build v = rw (core.match-build v, segment_of)

  -- One segment more, in front of what the rest of the loop gives.
  segments-cons :
      (v : Pattern core.Regex) (r : Result (List PathPattern)) (path : List PathPattern)
      (segs : List Str)
      → ((ps : List PathPattern) → r ≡ ok ps → map (segment_of core) ps ≡ segs)
      → (r >>= λ ps. ok (core.build v ∷ ps)) ≡ ok path
      → map (segment_of core) path ≡ text_of v ∷ segs
  segments-cons v (ok ps) path segs h e = ground (arith, segment_of-build v, h ps refl)
  segments-cons v (err x) path segs h e = cc

  -- The pattern that an accepted segment becomes.
  view_of : Str → Pattern core.Regex
  view_of seg =
      if str_eq seg (bytes "+")
      then any_one
      else if str_eq seg (bytes "#")
      then any_path
      else literal seg

  text_of-view_of : (seg : Str) → text_of (view_of seg) ≡ seg
  unfolding text_of view_of
  text_of-view_of seg = ground (arith, str_eq_iff seg (bytes "+"), str_eq_iff seg (bytes "#"))

  parse_filter_cons :
      (last_idx i : ℕ) (seg : Str) (segs : List Str) (path : List PathPattern)
      → parse_filter core last_idx i (seg ∷ segs) ≡ ok path
      → (parse_filter core last_idx (i + 1) segs >>= λ ps. ok (core.build (view_of seg) ∷ ps))
        ≡ ok path
  unfolding parse_filter view_of
  parse_filter_cons last_idx i seg segs path e = ground arith

  segments-parse_filter :
      (last_idx i : ℕ) (segs : List Str) (path : List PathPattern)
      → parse_filter core last_idx i segs ≡ ok path
      → map (segment_of core) path ≡ segs
  segments-parse_filter last_idx i [] path e = unfold parse_filter in ground arith
  segments-parse_filter last_idx i (seg ∷ segs) path e =
      segments-cons (view_of seg) _ path segs
        (λ ps q. segments-parse_filter last_idx (i + 1) segs ps q)
        (parse_filter_cons last_idx i seg segs path e)
      ∙ ap (λ t. t ∷ segs) (text_of-view_of seg)

  -- The wire form of the patterns that a filter is parsed to is the filter.
  pub path_to_wire_filter-parse :
      (filter : Str) (path : List PathPattern)
      → parse_subscribe_filter core filter ≡ ok path
      → path_to_wire_filter core path ≡ filter
  unfolding parse_subscribe_filter path_to_wire_filter
  path_to_wire_filter-parse filter path e =
      let (_, _, parsed) = >>=-eq-ok (check_length filter) _ e in
      ap join (segments-parse_filter (length (split filter) - 1) 0 (split filter) path parsed)
      ∙ join-split filter
