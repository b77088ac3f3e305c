-- ===== src/Tests/Topics.antt =====
-- Concrete topics and filters. The parser is run with patterns that are their own variants.
use jack_hotaru_mqtt.Base.{◌≤◌, ◌≡◌, ◌≢◌, ◌↔◌, ◌⊎◌, refl, true, [], ◌∷◌, Str, bytes, split, length}
use jack_hotaru_mqtt.Error.{ok}
use jack_hotaru_mqtt.Topic.{
  Pattern, literal, any_one, PathPatterns, max_topic_len, validate_subscribe_filter,
  validate_publish_topic, parse_filter, parse_subscribe_filter, parse_publish_topic,
  path_to_wire_filter,
}
use jack_hotaru_mqtt.Topic.Agreement.{verdict, parsers_agree}
use jack_hotaru_mqtt.Topic.Grammar.{
  IsFilter, validate_subscribe_filter_iff, path_to_wire_filter-parse,
}
use jack_hotaru_mqtt.Broker.Filter.{filter_matches}
use jack_hotaru_mqtt.Broker.Filter.Meaning.{Level, Under, filter_matches_iff}

abbrev plain : PathPatterns
plain = record {
  PathPattern = Pattern (Unit {0});
  Regex = Unit {0};
  build = λ v. v;
  match = λ v. v;
  match-build = λ v. refl;
}

abbrev temperatures : Str
temperatures = bytes "s/+/t"

validate_subscribe_filter_iff_example :
    (validate_subscribe_filter temperatures ≡ ok tt)
    ↔ ((temperatures ≢ []) × (length temperatures ≤ max_topic_len) × IsFilter (split temperatures))
validate_subscribe_filter_iff_example = validate_subscribe_filter_iff temperatures

parsers_agree_example :
    (verdict (parse_subscribe_filter plain temperatures) ≡ validate_subscribe_filter temperatures)
    × (verdict (parse_publish_topic plain temperatures) ≡ validate_publish_topic temperatures)
parsers_agree_example = parsers_agree plain temperatures

path_to_wire_filter-parse_example :
    path_to_wire_filter plain (literal (bytes "s") ∷ any_one ∷ literal (bytes "t") ∷ [])
    ≡ temperatures
unfolding parse_subscribe_filter parse_filter split
path_to_wire_filter-parse_example =
    path_to_wire_filter-parse plain temperatures
      (literal (bytes "s") ∷ any_one ∷ literal (bytes "t") ∷ []) refl

filter_matches_iff_example : (filter_matches temperatures (split (bytes "s/1/t")) ≡ true) ↔ (
    Level (split temperatures) (split (bytes "s/1/t"))
    ⊎ Under (split temperatures) (split (bytes "s/1/t")))
filter_matches_iff_example = filter_matches_iff temperatures (split (bytes "s/1/t"))
