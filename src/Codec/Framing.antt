-- ===== src/Codec/Framing.antt =====
-- One packet on a stream: a frame is cut out whole, and nothing is taken of an incomplete one.
use jack_hotaru_mqtt.Base.{
  ℕ, ◌+◌, ◌/◌, ◌^◌, ◌<◌, ◌≡◌, ◌≢◌, refl, sym, ap₂, ◌∙◌, ◌⊎◌, inl, inr, false, List, [], ◌∷◌, ◌++◌,
  Option, none, some, length, take, drop, ltb, le→leb, arith, append_assoc, take-length-append,
  drop-length-append, length-append,
}
use jack_hotaru_mqtt.Error.{Result, ok, err, ◌>>=◌}
use jack_hotaru_mqtt.Codes.PacketType.{PacketType}
use jack_hotaru_mqtt.Codes.PacketType
use jack_hotaru_mqtt.Codes.ProtocolVersion.{ProtocolVersion}
use jack_hotaru_mqtt.Wire.Length.{encode_remaining_length, decode_remaining_length_from_slice}
use jack_hotaru_mqtt.Wire.Length.RoundTrip.{
  decode-encode_remaining_length, decode-append_some, decode-append_err,
  read-encode_remaining_length, encode-ne-nil,
}
use jack_hotaru_mqtt.Packet.{Packet}
use jack_hotaru_mqtt.Codec.Encode.{frame}
use jack_hotaru_mqtt.Codec.Stream.{
  parse_packet, split_packet, decode_type, decode_packet_from_bytes, read_packet,
}

take_two {ℓ} :
    {A : Type ℓ} (xs ys zs : List A) → take (length xs + length ys) (xs ++ (ys ++ zs)) ≡ xs ++ ys
take_two xs ys zs =
    ap₂ take (sym (length-append xs ys)) (sym (append_assoc xs ys zs))
    ∙ take-length-append (xs ++ ys) zs

drop_two {ℓ} :
    {A : Type ℓ} (xs ys zs : List A) → drop (length xs + length ys) (xs ++ (ys ++ zs)) ≡ zs
drop_two xs ys zs =
    ap₂ drop (sym (length-append xs ys)) (sym (append_assoc xs ys zs))
    ∙ drop-length-append (xs ++ ys) zs

long_enough : (xs ys zs : List ℕ) → ltb (length (xs ++ (ys ++ zs))) (length xs + length ys) ≡ false
long_enough xs ys zs = ground (arith, length-append xs (ys ++ zs), length-append ys zs)

-- `parse_packet`, with its packet wrapped as the decoder wraps it.
abbrev pub decoded : Result Packet → Result (Option Packet)
decoded r = r >>= λ packet. ok (some packet)

split_whole :
    (first : ℕ) (t : PacketType) (size body rest : List ℕ) (version : ProtocolVersion)
    → split_packet first t (length body) (length size) ((first ∷ size) ++ (body ++ rest)) version
      ≡ (decoded (parse_packet first t (length body) body version), rest)
split_whole first t size body rest version =
    let head : List ℕ = first ∷ size in
    let one : 1 + length size ≡ length head = omega arith in
    rw (
      one,
      long_enough head body rest,
      take_two head body rest,
      drop_two head body rest,
      drop-length-append head body,
    )

decode_step :
    (first : ℕ) (tail : List ℕ) (version : ProtocolVersion)
    → tail ≢ []
    → decode_packet_from_bytes (first ∷ tail) version
      ≡ decode_type first tail (PacketType.try_from (first / 2 ^ 4)) version
unfolding decode_packet_from_bytes
decode_step first [] version h = absurd (h refl)
decode_step first (next ∷ rest) version h = refl

append-ne-nil : (xs ys : List ℕ) → xs ≢ [] → xs ++ ys ≢ []
append-ne-nil [] ys h = absurd (h refl)
append-ne-nil (x ∷ xs) ys h = λ e. cc

-- The decoder takes exactly the frame off the buffer, and parses its body.
pub decode-frame :
    (first : ℕ) (t : PacketType) (body rest : List ℕ) (version : ProtocolVersion)
    → PacketType.try_from (first / 2 ^ 4) ≡ some t
    → length body < 2 ^ 28
    → decode_packet_from_bytes (frame first body ++ rest) version
      ≡ (decoded (parse_packet first t (length body) body version), rest)
decode-frame first t body rest version known h =
    let size = encode_remaining_length (length body) in
    rw (
      append_assoc size body rest,
      decode_step first (size ++ (body ++ rest)) version (append-ne-nil size _ (encode-ne-nil _)),
      known,
      decode-encode_remaining_length (length body) (body ++ rest) h,
      split_whole first t size body rest version,
    )

-- The reader does so on a stream.
pub read-frame :
    (first : ℕ) (t : PacketType) (body rest : List ℕ) (version : ProtocolVersion)
    → PacketType.try_from (first / 2 ^ 4) ≡ some t
    → length body < 2 ^ 28
    → read_packet (frame first body ++ rest) version
      ≡ (parse_packet first t (length body) body version >>= λ packet. ok (packet, rest))
unfolding read_packet
read-frame first t body rest version known h =
    let size = encode_remaining_length (length body) in
    rw (
      append_assoc size body rest,
      known,
      read-encode_remaining_length (length body) (body ++ rest) h,
      le→leb (length body) (length (body ++ rest)) (omega (arith, length-append body rest)),
      take-length-append body rest,
      drop-length-append body rest,
    )

-- What the decoder finds of the lengths in an incomplete frame can only be the frame's own.
lengths_of_prefix :
    (size front more : List ℕ) (n : ℕ)
    → decode_remaining_length_from_slice (front ++ more) ≡ ok (some (n, length size))
    → (r : Result (Option (ℕ × ℕ))) → decode_remaining_length_from_slice front ≡ r
    → (r ≡ ok none) ⊎ (r ≡ ok (some (n, length size)))
lengths_of_prefix size front more n whole (ok none) e = inl refl
lengths_of_prefix size front more n whole (ok (some p)) e =
    inr (cc (whole, decode-append_some front more p e))
lengths_of_prefix size front more n whole (err x) e = cc (whole, decode-append_err front more x e)

cons-injective : {a b : ℕ} {xs ys : List ℕ} → a ∷ xs ≡ b ∷ ys → (a ≡ b) × (xs ≡ ys)
cons-injective e = (cc, cc)

split_short :
    (first : ℕ) (t : PacketType) (n k : ℕ) (buf : List ℕ) (version : ProtocolVersion)
    → length buf < 1 + k + n
    → split_packet first t n k buf version ≡ (ok none, buf)
split_short first t n k buf version h = ground arith

decode_prefix :
    (first x : ℕ) (t : PacketType) (front back : List ℕ) (size body : List ℕ)
    (version : ProtocolVersion)
    → PacketType.try_from (first / 2 ^ 4) ≡ some t
    → decode_remaining_length_from_slice (front ++ (x ∷ back))
      ≡ ok (some (length body, length size))
    → length (front ++ (x ∷ back)) ≡ length size + length body
    → decode_packet_from_bytes (first ∷ front) version ≡ (ok none, first ∷ front)
unfolding decode_packet_from_bytes
decode_prefix first x t [] back size body version known whole long = refl
decode_prefix first x t (next ∷ front) back size body version known whole long =
    elim (lengths_of_prefix size (next ∷ front) (x ∷ back) (length body) whole _ refl) [
      | inl more ↦ rw (known, more)
      | inr found ↦ rw (
        known,
        found,
        split_short first t (length body) (length size) (first ∷ next ∷ front) version
            (omega (arith, length-append front (x ∷ back))),
      )
    ]

-- Of a frame that has not arrived whole the decoder takes nothing, and it asks for more bytes.
pub decode-incomplete :
    (first x : ℕ) (t : PacketType) (body front back : List ℕ) (version : ProtocolVersion)
    → PacketType.try_from (first / 2 ^ 4) ≡ some t
    → length body < 2 ^ 28
    → frame first body ≡ front ++ (x ∷ back)
    → decode_packet_from_bytes front version ≡ (ok none, front)
decode-incomplete first x t body [] back version known h e = unfold decode_packet_from_bytes in refl
decode-incomplete first x t body (b ∷ front) back version known h e =
    let size = encode_remaining_length (length body) in
    let (same_first, same_tail) = cons-injective e in
    rw (← same_first) (
      decode_prefix first x t front back size body version known
        (rw (← same_tail) (decode-encode_remaining_length (length body) body h))
        (rw (← same_tail) (length-append size body)))
