-- ===== src/Wire/Length.antt =====
-- src/codec.rs: the remaining length, in groups of seven bits, lowest first.
pub mod RoundTrip
use jack_hotaru_mqtt.Base.{
  ℕ, zero, suc, ◌+◌, ◌*◌, ◌/◌, ◌%◌, ◌<◌, List, [], ◌∷◌, Option, none, some, bit_or, leb, ◌==◌,
  low_bits, bit, if◌then◌else◌, arith,
}
use jack_hotaru_mqtt.Base.Order.{lt_wf}
use jack_hotaru_mqtt.Error.{Result, ok, err, codec, io, malformed_length}
use mathlib.Core.Logic.{dite}
use mathlib.Core.WellFounded.{Acc}
use native.Mathlib.Decide.{dec_lt}

pub shift_shrinks : (v : ℕ) → 0 < v / 128 → v / 128 < v
shift_shrinks v h = omega arith

-- The `loop` of `encode_remaining_length` and of `write_vbi`: it ends when the value is 0.
unfoldable pub encode_loop : (value : ℕ) → Acc ◌<◌ value → List ℕ
encode_loop value (Acc.intro _ smaller) =
    dite (dec_lt 0 (value / 128))
      (λ more.
        bit_or (value % 128) 0x80
        ∷ encode_loop (value / 128) (smaller _ (shift_shrinks value more)))
      (λ _. value % 128 ∷ [])

unfoldable pub encode_remaining_length : ℕ → List ℕ
unfolding encode_loop lt_wf dec_lt
encode_remaining_length value = encode_loop value (lt_wf.apply value)

pub decode_loop : List ℕ → (i result multiplier : ℕ) → Result (Option (ℕ × ℕ))
decode_loop [] i result multiplier = ok none
decode_loop (byte ∷ data') i result multiplier =
    let sum = result + low_bits byte 7 * multiplier in
    let rest = decode_loop data' (i + 1) sum (multiplier * 128) in
    if bit byte 7 == 0
    then ok (some (sum, i + 1))
    else if leb 3 i
    then err (codec malformed_length)
    else rest

-- The value and the number of bytes read; `none` asks for more bytes.
pub decode_remaining_length_from_slice : List ℕ → Result (Option (ℕ × ℕ))
decode_remaining_length_from_slice data' = decode_loop data' 0 0 1

-- The reader is the list of the bytes that are still to come; past its end `read_exact` fails with
-- an I/O error. The first argument counts the rounds left, so `i` is 3 when it is `suc zero`.
pub read_loop : ℕ → (result multiplier : ℕ) → List ℕ → Result (ℕ × List ℕ)
read_loop zero result multiplier reader = err (codec malformed_length)
read_loop (suc n) result multiplier [] = err io
read_loop (suc n) result multiplier (byte ∷ reader) =
    let sum = result + low_bits byte 7 * multiplier in
    let rest = read_loop n sum (multiplier * 128) reader in
    if bit byte 7 == 0
    then ok (sum, reader)
    else if n == 0
    then err (codec malformed_length)
    else rest

pub read_remaining_length : List ℕ → Result (ℕ × List ℕ)
read_remaining_length reader = read_loop 4 0 1 reader
