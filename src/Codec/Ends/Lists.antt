-- ===== src/Codec/Ends/Lists.antt =====
-- The loops of SUBSCRIBE and UNSUBSCRIBE, whose rounds take at least two bytes each.
use jack_hotaru_mqtt.Base.{
  ℕ, zero, suc, ◌%◌, ◌≤◌, ◌≡◌, ◌≢◌, List, [], ◌∷◌, length, ltb, leb, not, is_utf8, Option, none,
  some, arith,
}
use jack_hotaru_mqtt.Error.{
  MqttError, CodecError, Result, ok, err, io, ok_or, ◌>>=◌, guard, codec, unexpected_eof,
  invalid_utf8, reserved_flag_set, qos_invalid,
}
use jack_hotaru_mqtt.Codes.QoS
use jack_hotaru_mqtt.Codes.QoS.{QoS}
use jack_hotaru_mqtt.Codes.ProtocolVersion.{ProtocolVersion, v311, v5}
use jack_hotaru_mqtt.Wire.Fields.{read_u16, read_arc_str}
use jack_hotaru_mqtt.Properties.{Properties}
use jack_hotaru_mqtt.Properties.Parse.{parse}
use jack_hotaru_mqtt.Packet.{Packet}
use jack_hotaru_mqtt.Codec.ParseLists.{
  bad_options, read_options, subscriptions_loop, topics_loop, skip_properties, parse_subscribe,
  parse_unsubscribe,
}
use jack_hotaru_mqtt.Codec.Ends.{
  Ends, Takes, Ends-then, Takes-end, Ends-Takes, Ends-guard, length-drop_le,
}
use jack_hotaru_mqtt.Codec.Ends.Properties.{Takes-properties}
use jack_hotaru_mqtt.Codec.Ends.Readers.{codec-io}

Takes-u16 : (body : List ℕ) → Takes (length body) (read_u16 body)
unfolding read_u16
Takes-u16 [] = codec-io unexpected_eof
Takes-u16 (hi ∷ []) = codec-io unexpected_eof
Takes-u16 (hi ∷ lo ∷ rest) = omega arith

-- A text takes a byte at least.
Takes-arc_str : (b : ℕ) (body : List ℕ) → Takes (length body) (read_arc_str (b ∷ body))
unfolding read_arc_str read_u16
Takes-arc_str b [] = codec-io unexpected_eof
Takes-arc_str b (lo ∷ rest) =
    Ends-Takes (suc (length rest)) (guard (leb _ (length rest)) (codec unexpected_eof)) _
      (Ends-guard _ _ (codec-io unexpected_eof))
      (λ done.
        Ends-Takes (suc (length rest)) (guard (is_utf8 _) (codec invalid_utf8)) _
          (Ends-guard _ _ (codec-io invalid_utf8)) (λ done'. omega (arith, length-drop_le _ rest)))

Ends-ok_or : {A : Type 0} (o : Option A) (c : CodecError) → Ends (ok_or o (codec c))
Ends-ok_or none c = codec-io c
Ends-ok_or (some a) c = tt

Takes-options :
    (version : ProtocolVersion) (cursor : List ℕ)
    → Takes (length cursor) (read_options version cursor)
unfolding read_options
Takes-options version [] = codec-io unexpected_eof
Takes-options version (options ∷ cursor) =
    let fewer : length cursor ≤ suc (length cursor) = omega arith in
    Ends-Takes (suc (length cursor))
      (guard (not (bad_options version options)) (codec reserved_flag_set)) _
      (Ends-guard _ _ (codec-io reserved_flag_set))
      (λ done.
        Ends-Takes (suc (length cursor))
          (ok_or (QoS.from_u8 (options % 4)) (codec (qos_invalid (options % 4))))
          (λ qos. ok (qos, cursor))
          (Ends-ok_or (QoS.from_u8 (options % 4)) (qos_invalid (options % 4))) (λ qos. fewer))

Ends-subscriptions :
    (fuel : ℕ) (version : ProtocolVersion) (cursor : List ℕ)
    → length cursor ≤ fuel
    → Ends (subscriptions_loop fuel version cursor)
unfolding subscriptions_loop
Ends-subscriptions fuel version [] h = tt
Ends-subscriptions zero version (b ∷ cursor) h = absurd (omega (arith, h))
Ends-subscriptions (suc fuel) version (b ∷ cursor) h =
    Takes-end (length cursor) (read_arc_str (b ∷ cursor)) _ (Takes-arc_str b cursor)
      (λ topic c1 fewer.
        Takes-end (length c1) (read_options version c1) _ (Takes-options version c1)
          (λ qos c2 fewer'.
            Ends-then (subscriptions_loop fuel version c2) _
              (Ends-subscriptions fuel version c2 (omega (arith, h, fewer, fewer'))) (λ rest. tt)))

Ends-topics : (fuel : ℕ) (cursor : List ℕ) → length cursor ≤ fuel → Ends (topics_loop fuel cursor)
unfolding topics_loop
Ends-topics fuel [] h = tt
Ends-topics zero (b ∷ cursor) h = absurd (omega (arith, h))
Ends-topics (suc fuel) (b ∷ cursor) h =
    Takes-end (length cursor) (read_arc_str (b ∷ cursor)) _ (Takes-arc_str b cursor)
      (λ topic c1 fewer.
        Ends-then (topics_loop fuel c1) _ (Ends-topics fuel c1 (omega (arith, h, fewer)))
          (λ rest. tt))

behind_properties :
    (n : ℕ) (r : Result (Properties × List ℕ)) (k : List ℕ → Result Packet)
    → Takes n r
    → ((c : List ℕ) → length c ≤ n → Ends (k c))
    → Ends ((do (_, rest) ← r; ok rest) >>= k)
behind_properties n (ok (properties, rest)) k h l = l rest h
behind_properties n (err e) k h l = h

skip_then :
    (version : ProtocolVersion) (cursor : List ℕ) (k : List ℕ → Result Packet)
    → ((c : List ℕ) → length c ≤ length cursor → Ends (k c))
    → Ends (skip_properties version cursor >>= k)
skip_then v311 cursor k l = l cursor (omega arith)
skip_then v5 cursor k l =
    behind_properties (length cursor) (parse cursor) k (Takes-properties cursor) l

err-injective : {A : Type 0} {a b : MqttError} → ◌≡◌ {A = Result A} (err a) (err b) → a ≡ b
err-injective e = cc

Ends-ne : {A : Type 0} (r : Result A) → Ends r → r ≢ err io
Ends-ne (ok a) h = λ e. cc
Ends-ne (err error) h = λ e. h (err-injective e)

Ends-subscribe : (body : List ℕ) (version : ProtocolVersion) → Ends (parse_subscribe body version)
unfolding parse_subscribe
Ends-subscribe body version =
    Ends-then (guard (not (ltb (length body) 5)) (codec unexpected_eof)) _
      (Ends-guard (not (ltb (length body) 5)) (codec unexpected_eof) (codec-io unexpected_eof))
      (λ done. Takes-end (length body) (read_u16 body) _ (Takes-u16 body) (λ id c1 fewer.
        skip_then version c1 _ (λ c2 fewer'.
          Ends-then (subscriptions_loop (length body) version c2) _
            (Ends-subscriptions (length body) version c2 (omega (arith, fewer, fewer')))
            (λ subscriptions. tt))))

Ends-unsubscribe :
    (body : List ℕ) (version : ProtocolVersion) → Ends (parse_unsubscribe body version)
unfolding parse_unsubscribe
Ends-unsubscribe body version =
    Ends-then (guard (not (ltb (length body) 4)) (codec unexpected_eof)) _
      (Ends-guard (not (ltb (length body) 4)) (codec unexpected_eof) (codec-io unexpected_eof))
      (λ done. Takes-end (length body) (read_u16 body) _ (Takes-u16 body) (λ id c1 fewer.
        skip_then version c1 _ (λ c2 fewer'.
          Ends-then (topics_loop (length body) c2) _
            (Ends-topics (length body) c2 (omega (arith, fewer, fewer'))) (λ topics. tt))))

-- The length of the body is fuel enough for the lists of a SUBSCRIBE and of an UNSUBSCRIBE, and for
-- their properties: neither parser gives the answer for fuel that has run out, whatever the body.
pub lists_end :
    (body : List ℕ) (version : ProtocolVersion)
    → (parse_subscribe body version ≢ err io) × (parse_unsubscribe body version ≢ err io)
lists_end body version = (
  Ends-ne (parse_subscribe body version) (Ends-subscribe body version),
  Ends-ne (parse_unsubscribe body version) (Ends-unsubscribe body version),
)
