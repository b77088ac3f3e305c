-- ===== src/Properties/Read.antt =====
-- src/properties.rs: the bounds-checked readers.
pub mod RoundTrip
use jack_hotaru_mqtt.Base.{
  ℕ, zero, suc, ◌+◌, ◌*◌, ◌^◌, List, [], ◌∷◌, Str, is_utf8, contains, not, length, take, drop, leb,
  ltb, ◌==◌, low_bits, bit, if◌then◌else◌,
}
use jack_hotaru_mqtt.Error.{
  Result, ok, err, ◌>>=◌, ◌>>◌, guard, protocol, codec, unexpected_eof, invalid_utf8,
  malformed_length, utf8_null_character,
}
use jack_hotaru_mqtt.Wire.Integers.{u16_of, u32_of}

unfoldable pub read_u8 : List ℕ → Result (ℕ × List ℕ)
read_u8 [] = err (codec unexpected_eof)
read_u8 (b ∷ rest) = ok (b, rest)

unfoldable pub read_u16 : List ℕ → Result (ℕ × List ℕ)
read_u16 (a ∷ b ∷ rest) = ok (u16_of a b, rest)
read_u16 _ = err (codec unexpected_eof)

unfoldable pub read_u32 : List ℕ → Result (ℕ × List ℕ)
read_u32 (a ∷ b ∷ c ∷ d ∷ rest) = ok (u32_of a b c d, rest)
read_u32 _ = err (codec unexpected_eof)

unfoldable pub read_prefixed_bytes : List ℕ → Result (List ℕ × List ℕ)
read_prefixed_bytes input = do
  (length', rest) ← read_u16 input
  guard (leb length' (length rest)) (codec unexpected_eof)
  ok (take length' rest, drop length' rest)

unfoldable pub validate_string : Str → Result (Unit {0})
validate_string value = guard (not (contains 0 value)) (protocol utf8_null_character)

unfoldable pub read_string : List ℕ → Result (Str × List ℕ)
unfolding validate_string
read_string input = do
  (value, rest) ← read_prefixed_bytes input
  guard (is_utf8 value) (codec invalid_utf8)
  validate_string value
  ok (value, rest)

unfoldable pub read_binary : List ℕ → Result (List ℕ × List ℕ)
read_binary input = read_prefixed_bytes input

-- The least value that needs `byte_index + 1` bytes.
abbrev pub minimum : ℕ → ℕ
minimum zero = 0
minimum (suc byte_index) = 2 ^ (7 * suc byte_index)

-- The loop of `read_vbi`, with the number of rounds left.
unfoldable pub vbi_loop : ℕ → (byte_index value multiplier : ℕ) → List ℕ → Result (ℕ × List ℕ)
vbi_loop zero byte_index value multiplier input = err (codec malformed_length)
vbi_loop (suc n) byte_index value multiplier [] = err (codec unexpected_eof)
vbi_loop (suc n) byte_index value multiplier (byte ∷ input) =
    let sum = value + low_bits byte 7 * multiplier in
    let rest = vbi_loop n (byte_index + 1) sum (multiplier * 128) input in
    if bit byte 7 == 0
    then (if ltb sum (minimum byte_index) then err (codec malformed_length) else ok (sum, input))
    else rest

unfoldable pub read_vbi : List ℕ → Result (ℕ × List ℕ)
read_vbi input = vbi_loop 4 0 0 1 input
