-- ===== src/Properties/Read/RoundTrip.antt =====
-- Each reader of src/properties.rs reads back what the writer beside it wrote.
use jack_hotaru_mqtt.Base.{
  ℕ, suc, ◌+◌, ◌*◌, ◌/◌, ◌%◌, ◌^◌, ◌≤◌, ◌<◌, ◌≡◌, true, false, List, ◌∷◌, ◌++◌, is_utf8, contains,
  length, leb, le→leb, bit_or, arith, length-append, take-length-append, drop-length-append,
}
use jack_hotaru_mqtt.Base.Bits.{set_top_bit}
use jack_hotaru_mqtt.Base.Order.{lt_wf}
use jack_hotaru_mqtt.Error.{ok}
use jack_hotaru_mqtt.Wire.Integers.{u16_be, u16_back, u32_be, u32_back}
use jack_hotaru_mqtt.Wire.Length.{encode_loop, encode_remaining_length}
use jack_hotaru_mqtt.Properties.Read.{
  read_u16, read_u32, read_prefixed_bytes, read_string, read_binary, vbi_loop, read_vbi, minimum,
}
use mathlib.Core.WellFounded.{Acc}

pub read-u16_be : (v : ℕ) (rest : List ℕ) → v < 65536 → read_u16 (u16_be v ++ rest) ≡ ok (v, rest)
unfolding read_u16
read-u16_be v rest h = rw (u16_back v h)

pub read-u32_be : (v : ℕ) (rest : List ℕ) → v < 2 ^ 32 → read_u32 (u32_be v ++ rest) ≡ ok (v, rest)
unfolding read_u32
read-u32_be v rest h = rw (u32_back v h)

length_bound : (s rest : List ℕ) → leb (length s) (length (s ++ rest)) ≡ true
length_bound s rest = le→leb _ _ (omega (arith, length-append s rest))

pub read-prefixed :
    (b rest : List ℕ)
    → length b < 65536
    → read_prefixed_bytes (u16_be (length b) ++ (b ++ rest)) ≡ ok (b, rest)
unfolding read_prefixed_bytes
read-prefixed b rest h = rw (
  read-u16_be (length b) (b ++ rest) h,
  length_bound b rest,
  take-length-append b rest,
  drop-length-append b rest,
)

pub read-string :
    (s rest : List ℕ)
    → is_utf8 s ≡ true
    → contains 0 s ≡ false
    → length s < 65536
    → read_string (u16_be (length s) ++ (s ++ rest)) ≡ ok (s, rest)
unfolding read_string
read-string s rest utf8 no_null h = rw (read-prefixed s rest h, utf8, no_null)

pub read-binary :
    (b rest : List ℕ)
    → length b < 65536
    → read_binary (u16_be (length b) ++ (b ++ rest)) ≡ ok (b, rest)
unfolding read_binary
read-binary b rest h = read-prefixed b rest h

top_bit : (v : ℕ) → bit_or (v % 128) 0x80 ≡ v % 128 + 128
top_bit v = set_top_bit (v % 128) (omega arith)

vbi_inner :
    (g n i r m : ℕ) (rest : List ℕ)
    → g < 128
    → vbi_loop (suc n) i r m ((g + 128) ∷ rest) ≡ vbi_loop n (i + 1) (r + g * m) (m * 128) rest
unfolding vbi_loop
vbi_inner g n i r m rest h = ground arith

vbi_last :
    (g n i r m : ℕ) (rest : List ℕ)
    → g < 128
    → minimum i ≤ r + g * m
    → vbi_loop (suc n) i r m (g ∷ rest) ≡ ok (r + g * m, rest)
unfolding vbi_loop
vbi_last g n i r m rest h least = ground arith

-- What is left to read once `i` bytes have been read, at the multiplier that then holds.
vbi_at_3 :
    (v : ℕ) (w : Acc ◌<◌ v) (r : ℕ) (rest : List ℕ)
    → v < 128
    → 0 < v
    → vbi_loop 1 3 r 2097152 (encode_loop v w ++ rest) ≡ ok (r + v * 2097152, rest)
unfolding encode_loop
vbi_at_3 v (Acc.intro _ smaller) r rest h pos = grind (arith, vbi_last v 0 3 r 2097152 rest)

vbi_at_2 :
    (v : ℕ) (w : Acc ◌<◌ v) (r : ℕ) (rest : List ℕ)
    → v < 16384
    → 0 < v
    → vbi_loop 2 2 r 16384 (encode_loop v w ++ rest) ≡ ok (r + v * 16384, rest)
unfolding encode_loop
vbi_at_2 v (Acc.intro _ smaller) r rest h pos = grind (
  arith,
  top_bit v,
  vbi_last v 1 2 r 16384 rest,
  λ (t : List ℕ). vbi_inner (v % 128) 1 2 r 16384 t (omega arith),
  λ (w : Acc ◌<◌ (v / 128)). vbi_at_3 (v / 128) w (r + v % 128 * 16384) rest,
)

vbi_at_1 :
    (v : ℕ) (w : Acc ◌<◌ v) (r : ℕ) (rest : List ℕ)
    → v < 2097152
    → 0 < v
    → vbi_loop 3 1 r 128 (encode_loop v w ++ rest) ≡ ok (r + v * 128, rest)
unfolding encode_loop
vbi_at_1 v (Acc.intro _ smaller) r rest h pos = grind (
  arith,
  top_bit v,
  vbi_last v 2 1 r 128 rest,
  λ (t : List ℕ). vbi_inner (v % 128) 2 1 r 128 t (omega arith),
  λ (w : Acc ◌<◌ (v / 128)). vbi_at_2 (v / 128) w (r + v % 128 * 128) rest,
)

vbi_at_0 :
    (v : ℕ) (w : Acc ◌<◌ v) (rest : List ℕ)
    → v < 268435456
    → vbi_loop 4 0 0 1 (encode_loop v w ++ rest) ≡ ok (v, rest)
unfolding encode_loop
vbi_at_0 v (Acc.intro _ smaller) rest h = grind (
  arith,
  top_bit v,
  vbi_last v 3 0 0 1 rest,
  λ (t : List ℕ). vbi_inner (v % 128) 3 0 0 1 t (omega arith),
  λ (w : Acc ◌<◌ (v / 128)). vbi_at_1 (v / 128) w (0 + v % 128 * 1) rest,
)

-- `read_vbi` reads back every value below 2^28.
pub read-vbi :
    (v : ℕ) (rest : List ℕ)
    → v < 2 ^ 28
    → read_vbi (encode_remaining_length v ++ rest) ≡ ok (v, rest)
unfolding read_vbi encode_remaining_length
read-vbi v rest h = vbi_at_0 v (lt_wf.apply v) rest (omega arith)
