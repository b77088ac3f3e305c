-- ===== src/Wire/Fields/RoundTrip.antt =====
-- Reading back what the writers of `Wire.Fields` wrote.
use jack_hotaru_mqtt.Base.{
  ℕ, ◌%◌, ◌^◌, ◌<◌, ◌≡◌, true, List, ◌++◌, Str, is_utf8, length, leb, le→leb, arith, length-append,
  take-length-append, drop-length-append,
}
use jack_hotaru_mqtt.Error.{ok}
use jack_hotaru_mqtt.Wire.Integers.{u16_be}
use jack_hotaru_mqtt.Wire.Integers.{u16_back}
use jack_hotaru_mqtt.Wire.Fields.{read_u16, read_arc_str, read_bytes, write_arc_str, write_bytes}

-- A text that `write_arc_str` can represent.
abbrev pub IsText : Str → Type 0
IsText s = (is_utf8 s ≡ true) × (length s < 65536)

abbrev pub IsBlob : List ℕ → Type 0
IsBlob b = length b < 65536

pub read-u16_be : (v : ℕ) (rest : List ℕ) → v < 65536 → read_u16 (u16_be v ++ rest) ≡ ok (v, rest)
unfolding read_u16
read-u16_be v rest h = rw (u16_back v h)

length_bound : (s rest : List ℕ) → leb (length s) (length (s ++ rest)) ≡ true
length_bound s rest = le→leb _ _ (omega (arith, length-append s rest))

u16_length : (s : List ℕ) → length s < 65536 → length s % 2 ^ 16 ≡ length s
u16_length s h = omega arith

pub read-write_bytes :
    (b rest : List ℕ) → IsBlob b → read_bytes (write_bytes b ++ rest) ≡ ok (b, rest)
unfolding read_bytes write_bytes
read-write_bytes b rest h = rw (
  u16_length b h,
  read-u16_be (length b) (b ++ rest) h,
  length_bound b rest,
  take-length-append b rest,
  drop-length-append b rest,
)

-- A text of fewer than 65536 bytes of UTF-8 is read back from its length-prefixed form, with what
-- follows it left.
pub read-write_arc_str :
    (s rest : List ℕ) → IsText s → read_arc_str (write_arc_str s ++ rest) ≡ ok (s, rest)
unfolding read_arc_str write_arc_str
read-write_arc_str s rest (utf8, h) = rw (
  u16_length s h,
  read-u16_be (length s) (s ++ rest) h,
  length_bound s rest,
  take-length-append s rest,
  drop-length-append s rest,
  utf8,
)
