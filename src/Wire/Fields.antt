-- ===== src/Wire/Fields.antt =====
-- src/codec.rs: the helpers for length-prefixed strings and bytes. A length is written `as u16`, so
-- it wraps: `write_arc_str` and `write_bytes` check nothing.
pub mod RoundTrip
use jack_hotaru_mqtt.Base.{
  ℕ, ◌+◌, ◌%◌, ◌^◌, List, [], ◌∷◌, ◌++◌, Str, is_utf8, length, take, drop, leb,
}
use jack_hotaru_mqtt.Error.{
  Result, ok, err, ◌>>=◌, ◌>>◌, guard, codec, unexpected_eof, invalid_utf8,
}
use jack_hotaru_mqtt.Wire.Integers.{u16_be, u16_of}

unfoldable pub read_u16 : List ℕ → Result (ℕ × List ℕ)
read_u16 [] = err (codec unexpected_eof)
read_u16 (hi ∷ []) = err (codec unexpected_eof)
read_u16 (hi ∷ lo ∷ rest) = ok (u16_of hi lo, rest)

unfoldable pub read_arc_str : List ℕ → Result (Str × List ℕ)
read_arc_str body = do
  (len, rest) ← read_u16 body
  guard (leb len (length rest)) (codec unexpected_eof)
  guard (is_utf8 (take len rest)) (codec invalid_utf8)
  ok (take len rest, drop len rest)

unfoldable pub read_bytes : List ℕ → Result (List ℕ × List ℕ)
read_bytes body = do
  (len, rest) ← read_u16 body
  guard (leb len (length rest)) (codec unexpected_eof)
  ok (take len rest, drop len rest)

-- What the function appends to `out`.
unfoldable pub write_arc_str : Str → List ℕ
write_arc_str s = u16_be (length s % 2 ^ 16) ++ s

unfoldable pub write_bytes : List ℕ → List ℕ
write_bytes b = u16_be (length b % 2 ^ 16) ++ b
