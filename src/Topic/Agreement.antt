-- ===== src/Topic/Agreement.antt =====
-- The allocating parsers and the allocation-free validators of src/topic.rs.
use jack_hotaru_mqtt.Base.{
  ℕ, ◌+◌, ◌-◌, ◌≡◌, refl, ap, ◌∙◌, List, [], ◌∷◌, Str, split, length, arith,
}
use jack_hotaru_mqtt.Error.{Result, ok, err, ◌>>=◌, ◌>>◌}
use jack_hotaru_mqtt.Topic.{
  PathPatterns, check_length, check_filter, validate_subscribe_filter, check_topic,
  validate_publish_topic, parse_filter, parse_subscribe_filter, parse_topic, parse_publish_topic,
}

-- What a parser reports, without the patterns.
abbrev pub verdict : {A : Type 0} → Result A → Result (Unit {0})
verdict r = r >>= λ _. ok tt

module _ (core : PathPatterns) where
  open core use {PathPattern}

  verdict-parse_filter :
      (last_idx i : ℕ) (segs : List Str)
      → verdict (parse_filter core last_idx i segs) ≡ check_filter last_idx i segs
  unfolding parse_filter check_filter
  verdict-parse_filter last_idx i [] = refl
  verdict-parse_filter last_idx i (seg ∷ segs) =
      ground (arith, verdict-parse_filter last_idx (i + 1) segs)

  verdict-parse_topic : (segs : List Str) → verdict (parse_topic core segs) ≡ check_topic segs
  unfolding parse_topic check_topic
  verdict-parse_topic [] = refl
  verdict-parse_topic (seg ∷ segs) = ground (arith, verdict-parse_topic segs)

  verdict-bind :
      {A : Type 0} (m : Result (Unit {0})) (r : Result A) → verdict (m >> r) ≡ (m >> verdict r)
  verdict-bind (ok u) r = refl
  verdict-bind (err e) r = refl

  -- On every text each validator gives the verdict of its parser: the same success, or the same error.
  pub parsers_agree :
      (text : Str)
      → (verdict (parse_subscribe_filter core text) ≡ validate_subscribe_filter text)
        × (verdict (parse_publish_topic core text) ≡ validate_publish_topic text)
  unfolding parse_subscribe_filter parse_publish_topic validate_subscribe_filter
      validate_publish_topic
  parsers_agree text = (
    verdict-bind (check_length text) _
        ∙ ap (λ r. check_length text >> r)
            (verdict-parse_filter (length (split text) - 1) 0 (split text)),
    verdict-bind (check_length text) _
        ∙ ap (λ r. check_length text >> r) (verdict-parse_topic (split text)),
  )
