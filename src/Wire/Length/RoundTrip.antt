-- ===== src/Wire/Length/RoundTrip.antt =====
-- The remaining length is read back, from a slice and from a reader.
use jack_hotaru_mqtt.Base.{
  ℕ, zero, suc, ◌+◌, ◌*◌, ◌/◌, ◌%◌, ◌^◌, ◌≤◌, ◌<◌, ◌≡◌, ◌≢◌, ap, ap₂, ◌∙◌, List, [], ◌∷◌, ◌++◌,
  some, bit_or, length, arith,
}
use jack_hotaru_mqtt.Base.Bits.{set_top_bit}
use jack_hotaru_mqtt.Base.Order.{lt_wf}
use jack_hotaru_mqtt.Error.{MqttError, ok, err}
use jack_hotaru_mqtt.Wire.Length.{
  encode_loop, encode_remaining_length, decode_loop, decode_remaining_length_from_slice, read_loop,
  read_remaining_length,
}
use mathlib.Core.WellFounded.{Acc}
use native.Mathlib.Nat.{div-add-mod}

top_bit : (v : ℕ) → bit_or (v % 128) 0x80 ≡ v % 128 + 128
top_bit v = set_top_bit (v % 128) (omega arith)

split_group : (v m : ℕ) → v % 128 * m + v / 128 * (m * 128) ≡ v * m
split_group v m = omega (arith, ap (λ (t : ℕ). t * m) (div-add-mod v 128))

-- One more round of `decode_loop` on a byte with its top bit set.
decode_inner :
    (g i r m : ℕ) (rest : List ℕ)
    → g < 128
    → i < 3
    → decode_loop ((g + 128) ∷ rest) i r m ≡ decode_loop rest (i + 1) (r + g * m) (m * 128)
unfolding decode_loop
decode_inner g i r m rest hg hi = ground arith

decode-encode :
    (k v : ℕ) (w : Acc ◌<◌ v) (i r m : ℕ) (rest : List ℕ)
    → v < 128 ^ suc k
    → i + k ≤ 3
    → decode_loop (encode_loop v w ++ rest) i r m
      ≡ ok (some (r + v * m, i + length (encode_loop v w)))
unfolding encode_loop decode_loop
decode-encode zero v (Acc.intro _ smaller) i r m rest h hi = ground (arith, split_group v m)
decode-encode (suc k) v (Acc.intro _ smaller) i r m rest h hi = grind (
  arith,
  top_bit v,
  split_group v m,
  λ (w : Acc ◌<◌ (v / 128)).
      decode-encode k (v / 128) w (i + 1) (r + v % 128 * m) (m * 128) rest (omega arith)
        (omega arith),
)

-- The number of rounds left is `n`, and the value has at most `k + 1` groups.
read-encode :
    (k v : ℕ) (w : Acc ◌<◌ v) (n r m : ℕ) (rest : List ℕ)
    → v < 128 ^ suc k
    → k ≤ n
    → read_loop (suc n) r m (encode_loop v w ++ rest) ≡ ok (r + v * m, rest)
unfolding encode_loop read_loop
read-encode zero v (Acc.intro _ smaller) n r m rest h hn = ground (arith, split_group v m)
read-encode (suc k) v (Acc.intro _ smaller) (suc n) r m rest h hn = grind (
  arith,
  top_bit v,
  split_group v m,
  λ (w : Acc ◌<◌ (v / 128)).
      read-encode k (v / 128) w n (r + v % 128 * m) (m * 128) rest (omega arith) (omega arith),
)
read-encode (suc k) v (Acc.intro _ smaller) zero r m rest h hn = absurd (omega arith)

-- The decoder of a slice reads back every length below 2^28, with the number of its bytes.
pub decode-encode_remaining_length :
    (v : ℕ) (rest : List ℕ)
    → v < 2 ^ 28
    → decode_remaining_length_from_slice (encode_remaining_length v ++ rest)
      ≡ ok (some (v, length (encode_remaining_length v)))
unfolding decode_remaining_length_from_slice encode_remaining_length
decode-encode_remaining_length v rest h =
    decode-encode 3 v (lt_wf.apply v) 0 0 1 rest (omega arith) (omega arith)
    ∙ ap₂ (λ (n k : ℕ). ok (some (n, k))) (omega arith) (omega arith)

pub read-encode_remaining_length :
    (v : ℕ) (rest : List ℕ)
    → v < 2 ^ 28
    → read_remaining_length (encode_remaining_length v ++ rest) ≡ ok (v, rest)
unfolding read_remaining_length encode_remaining_length
read-encode_remaining_length v rest h =
    read-encode 3 v (lt_wf.apply v) 3 0 1 rest (omega arith) (omega arith)
    ∙ ap (λ (n : ℕ). ok (n, rest)) (omega arith)

encode_loop-ne-nil : (v : ℕ) (w : Acc ◌<◌ v) → encode_loop v w ≢ []
unfolding encode_loop
encode_loop-ne-nil v (Acc.intro _ smaller) = ground arith

pub encode-ne-nil : (v : ℕ) → encode_remaining_length v ≢ []
unfolding encode_remaining_length
encode-ne-nil v = encode_loop-ne-nil v (lt_wf.apply v)

decode_loop-append_some :
    (front more : List ℕ) (i r m : ℕ) (p : ℕ × ℕ)
    → decode_loop front i r m ≡ ok (some p)
    → decode_loop (front ++ more) i r m ≡ ok (some p)
unfolding decode_loop
decode_loop-append_some [] more i r m p e = cc
decode_loop-append_some (b ∷ front) more i r m p e =
    ground (arith, decode_loop-append_some front more (i + 1) (r + b % 128 * m) (m * 128) p)

decode_loop-append_err :
    (front more : List ℕ) (i r m : ℕ) (x : MqttError)
    → decode_loop front i r m ≡ err x
    → decode_loop (front ++ more) i r m ≡ err x
unfolding decode_loop
decode_loop-append_err [] more i r m x e = cc
decode_loop-append_err (b ∷ front) more i r m x e =
    ground (arith, decode_loop-append_err front more (i + 1) (r + b % 128 * m) (m * 128) x)

-- Bytes added behind the data change no answer but the request for more.
pub decode-append_some :
    (front more : List ℕ) (p : ℕ × ℕ)
    → decode_remaining_length_from_slice front ≡ ok (some p)
    → decode_remaining_length_from_slice (front ++ more) ≡ ok (some p)
unfolding decode_remaining_length_from_slice
decode-append_some front more p e = decode_loop-append_some front more 0 0 1 p e

pub decode-append_err :
    (front more : List ℕ) (x : MqttError)
    → decode_remaining_length_from_slice front ≡ err x
    → decode_remaining_length_from_slice (front ++ more) ≡ err x
unfolding decode_remaining_length_from_slice
decode-append_err front more x e = decode_loop-append_err front more 0 0 1 x e
