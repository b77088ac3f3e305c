-- ===== src/Broker/Filter.antt =====
-- src/broker.rs: `filter_matches`. The indices `f` and `t` are the segments that are left.
pub mod Meaning
use jack_hotaru_mqtt.Base.{
  Bool, true, false, ◌&&◌, List, [], ◌∷◌, Str, str_eq, bytes, split, is_empty, if◌then◌else◌,
}

-- The loop, on the segments from `f` and from `t` on.
unfoldable pub match_segments : List Str → List Str → Bool
match_segments [] topic = is_empty topic
match_segments (seg ∷ filter) [] = str_eq seg (bytes "#")
match_segments (seg ∷ filter) (t ∷ topic) =
    let rest = match_segments filter topic in
    if str_eq seg (bytes "#")
    then true
    else if str_eq seg (bytes "+")
    then rest
    else str_eq seg t && rest

unfoldable pub filter_matches : Str → List Str → Bool
unfolding match_segments
filter_matches filter topic_segs = match_segments (split filter) topic_segs
