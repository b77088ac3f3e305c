-- ===== src/Codec/Ends/Readers.antt =====
-- The readers of property values take no bytes that are not there.
use jack_hotaru_mqtt.Base.{
  ℕ, zero, suc, ◌+◌, ◌*◌, ◌≤◌, ◌≢◌, List, [], ◌∷◌, length, ltb, leb, ◌==◌, bit, low_bits, arith,
}
use jack_hotaru_mqtt.Error.{
  CodecError, Violation, malformed_length, ok, io, guard, codec, protocol, unexpected_eof,
}
use jack_hotaru_mqtt.Properties.Read.{
  read_u8, read_u16, read_u32, read_prefixed_bytes, read_string, read_vbi, validate_string,
  vbi_loop, minimum,
}
use jack_hotaru_mqtt.Codec.Ends.{
  Takes, Takes-then, Ends-Takes, Ends-guard, Takes-if, length-drop_le,
}

pub codec-io : (c : CodecError) → codec c ≢ io
codec-io c = λ e. cc

pub protocol-io : (v : Violation) → protocol v ≢ io
protocol-io v = λ e. cc

pub Takes-u8 : (input : List ℕ) → Takes (length input) (read_u8 input)
unfolding read_u8
Takes-u8 [] = λ e. cc
Takes-u8 (b ∷ rest) = omega arith

pub Takes-u16 : (input : List ℕ) → Takes (length input) (read_u16 input)
unfolding read_u16
Takes-u16 [] = λ e. cc
Takes-u16 (a ∷ []) = λ e. cc
Takes-u16 (a ∷ b ∷ rest) = omega arith

pub Takes-u32 : (input : List ℕ) → Takes (length input) (read_u32 input)
unfolding read_u32
Takes-u32 [] = λ e. cc
Takes-u32 (a ∷ []) = λ e. cc
Takes-u32 (a ∷ b ∷ []) = λ e. cc
Takes-u32 (a ∷ b ∷ c ∷ []) = λ e. cc
Takes-u32 (a ∷ b ∷ c ∷ d ∷ rest) = omega arith

pub Takes-prefixed : (input : List ℕ) → Takes (length input) (read_prefixed_bytes input)
unfolding read_prefixed_bytes
Takes-prefixed input =
    Takes-then (length input) (length input) (read_u16 input) _ (Takes-u16 input) (λ n rest h.
      Ends-Takes (length input) (guard (leb n (length rest)) (codec unexpected_eof)) _
        (Ends-guard (leb n (length rest)) _ (λ e. cc))
        (λ done. omega (arith, h, length-drop_le n rest)))

pub Takes-string : (input : List ℕ) → Takes (length input) (read_string input)
unfolding read_string
Takes-string input =
    Takes-then (length input) (length input) (read_prefixed_bytes input) _ (Takes-prefixed input)
      (λ value rest h. Ends-Takes (length input) (guard _ _) _ (Ends-guard _ _ (λ e. cc)) (λ done.
        Ends-Takes (length input) (validate_string value) _
          (unfold validate_string in Ends-guard _ _ (λ e. cc)) (λ done'. h)))

Takes-loop :
    (n byte_index value multiplier bound : ℕ) (input : List ℕ)
    → length input ≤ bound
    → Takes bound (vbi_loop n byte_index value multiplier input)
unfolding vbi_loop
Takes-loop zero byte_index value multiplier bound input h = λ e. cc
Takes-loop (suc n) byte_index value multiplier bound [] h = λ e. cc
Takes-loop (suc n) byte_index value multiplier bound (byte ∷ input) h =
    let sum = value + low_bits byte 7 * multiplier in
    let fewer : length input ≤ bound = omega (arith, h) in
    Takes-if bound (bit byte 7 == 0) _ (vbi_loop n (byte_index + 1) sum (multiplier * 128) input)
      (Takes-if bound (ltb sum (minimum byte_index)) _ (ok (sum, input)) (codec-io malformed_length)
        fewer)
      (Takes-loop n (byte_index + 1) sum (multiplier * 128) bound input fewer)

pub Takes-vbi : (input : List ℕ) → Takes (length input) (read_vbi input)
unfolding read_vbi
Takes-vbi input = Takes-loop 4 0 0 1 (length input) input (omega arith)
