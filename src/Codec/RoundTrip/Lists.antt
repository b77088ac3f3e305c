-- ===== src/Codec/RoundTrip/Lists.antt =====
-- The bodies of SUBSCRIBE, SUBACK, UNSUBSCRIBE and UNSUBACK are parsed to what was encoded.
use jack_hotaru_mqtt.Base.{
  ℕ, zero, suc, ◌+◌, ◌≤◌, ◌≡◌, ◌≢◌, refl, false, List, [], ◌∷◌, ◌++◌, Str, length, ltb, arith,
  length-append, map, All,
}
use jack_hotaru_mqtt.Error.{ok}
use jack_hotaru_mqtt.Codes.QoS.{QoS, at_most_once, at_least_once, exactly_once}
use jack_hotaru_mqtt.Codes.QoS
use jack_hotaru_mqtt.Codes.SubackCode.{SubackCode, granted, failure}
use jack_hotaru_mqtt.Codes.SubackCode
use jack_hotaru_mqtt.Codes.ProtocolVersion.{ProtocolVersion, v311, v5}
use jack_hotaru_mqtt.Wire.Integers.{u16_be}
use jack_hotaru_mqtt.Wire.Fields.{write_arc_str}
use jack_hotaru_mqtt.Wire.Fields.RoundTrip.{IsText, read-u16_be, read-write_arc_str}
use jack_hotaru_mqtt.Properties.{default}
use jack_hotaru_mqtt.Properties.RoundTrip.Table.{IsTyped}
use jack_hotaru_mqtt.Packet.{
  TopicSubscription, SubscribePacket, SubackPacket, UnsubscribePacket, subscribe, suback,
  unsubscribe,
}
use jack_hotaru_mqtt.Codec.Encode.{encode_properties, encode_subscriptions, encode_topics}
use jack_hotaru_mqtt.Codec.ParseLists.{
  read_options, subscriptions_loop, parse_subscribe, suback_code, suback_codes, parse_suback,
  topics_loop, parse_unsubscribe, skip_properties,
}
use jack_hotaru_mqtt.Codec.RoundTrip.Wire.{HasProperties, IsId}
use jack_hotaru_mqtt.Codec.RoundTrip.Publish.{parse-properties}

default-IsTyped : IsTyped default
default-IsTyped = omega arith

default-HasProperties : (version : ProtocolVersion) → HasProperties version default
default-HasProperties v311 = refl
default-HasProperties v5 = default-IsTyped

skip-default :
    (version : ProtocolVersion) (properties rest : List ℕ)
    → encode_properties version default ≡ ok properties
    → skip_properties version (properties ++ rest) ≡ ok rest
skip-default version properties rest e =
    rw (parse-properties version default properties rest (default-HasProperties version) e)

read-options :
    (version : ProtocolVersion) (qos : QoS) (cursor : List ℕ)
    → read_options version (QoS.as_u8 qos ∷ cursor) ≡ ok (qos, cursor)
unfolding read_options
read-options version qos cursor = ground arith

loop-subscriptions :
    (version : ProtocolVersion) (subs : List TopicSubscription) (fuel : ℕ)
    → All (λ sub. IsText sub.topic) subs
    → length (encode_subscriptions subs) ≤ fuel
    → subscriptions_loop fuel version (encode_subscriptions subs) ≡ ok subs
unfolding subscriptions_loop write_arc_str
loop-subscriptions version [] fuel h l = refl
loop-subscriptions version (sub ∷ subs) zero h l = absurd (omega arith)
loop-subscriptions version (sub ∷ subs) (suc fuel) h l =
    let rest = QoS.as_u8 sub.qos ∷ encode_subscriptions subs in
    rw (
      read-write_arc_str sub.topic rest h.0,
      read-options version sub.qos (encode_subscriptions subs),
      loop-subscriptions version subs fuel h.1 (omega (arith, length-append sub.topic rest)),
    )

loop-topics :
    (topics : List Str) (fuel : ℕ)
    → All IsText topics
    → length (encode_topics topics) ≤ fuel
    → topics_loop fuel (encode_topics topics) ≡ ok topics
unfolding topics_loop write_arc_str
loop-topics [] fuel h l = refl
loop-topics (topic ∷ topics) zero h l = absurd (omega arith)
loop-topics (topic ∷ topics) (suc fuel) h l = rw (
  read-write_arc_str topic (encode_topics topics) h.0,
  loop-topics topics fuel h.1 (omega (arith, length-append topic (encode_topics topics))),
)

code_back :
    (version : ProtocolVersion) (code : SubackCode)
    → suback_code version (SubackCode.as_u8 code) ≡ ok code
code_back version (granted at_most_once) = refl
code_back version (granted at_least_once) = refl
code_back version (granted exactly_once) = refl
code_back version failure = refl

loop-codes :
    (version : ProtocolVersion) (codes : List SubackCode)
    → suback_codes version (map SubackCode.as_u8 codes) ≡ ok codes
loop-codes version [] = refl
loop-codes version (code ∷ codes) = rw (code_back version code, loop-codes version codes)

length-subscriptions :
    (subs : List TopicSubscription) → subs ≢ [] → 3 ≤ length (encode_subscriptions subs)
unfolding write_arc_str
length-subscriptions [] h = absurd (h refl)
length-subscriptions (sub ∷ subs) h =
    omega (arith, length-append sub.topic (QoS.as_u8 sub.qos ∷ encode_subscriptions subs))

length-topics : (topics : List Str) → topics ≢ [] → 2 ≤ length (encode_topics topics)
unfolding write_arc_str
length-topics [] h = absurd (h refl)
length-topics (topic ∷ topics) h = omega arith

length-codes : (codes : List SubackCode) → codes ≢ [] → 1 ≤ length (map SubackCode.as_u8 codes)
length-codes [] h = absurd (h refl)
length-codes (code ∷ codes) h = omega arith

-- The tests on the length of a body that begins with a packet id and a property block.
long_enough :
    (k id : ℕ) (properties rest : List ℕ)
    → k ≤ 2 + length rest
    → ltb (length (u16_be id ++ (properties ++ rest))) k ≡ false
long_enough k id properties rest h = ground (arith, length-append properties rest)

module _ (version : ProtocolVersion) (properties : List ℕ)
    (encoded : encode_properties version default ≡ ok properties) where
  pub parse-encode_subscribe :
      (s : SubscribePacket)
      → IsId s.packet_id
      → s.subscriptions ≢ []
      → All (λ sub. IsText sub.topic) s.subscriptions
      → parse_subscribe
          (u16_be s.packet_id ++ (properties ++ encode_subscriptions s.subscriptions))
          version
        ≡ ok (subscribe s)
  unfolding parse_subscribe
  parse-encode_subscribe s id some_sub texts =
      let rest = encode_subscriptions s.subscriptions in
      rw (
        long_enough 5 s.packet_id properties rest
            (omega (arith, length-subscriptions s.subscriptions some_sub)),
        read-u16_be s.packet_id (properties ++ rest) id,
        skip-default version properties rest encoded,
        loop-subscriptions version s.subscriptions
            (length (u16_be s.packet_id ++ (properties ++ rest))) texts
            (omega (arith, length-append properties rest)),
      )

  pub parse-encode_suback :
      (s : SubackPacket)
      → IsId s.packet_id
      → s.return_codes ≢ []
      → parse_suback
          (u16_be s.packet_id ++ (properties ++ map SubackCode.as_u8 s.return_codes))
          version
        ≡ ok (suback s)
  unfolding parse_suback
  parse-encode_suback s id some_code =
      let rest = map SubackCode.as_u8 s.return_codes in
      rw (
        long_enough 3 s.packet_id properties rest
            (omega (arith, length-codes s.return_codes some_code)),
        read-u16_be s.packet_id (properties ++ rest) id,
        skip-default version properties rest encoded,
        loop-codes version s.return_codes,
      )

  pub parse-encode_unsubscribe :
      (u : UnsubscribePacket)
      → IsId u.packet_id
      → u.topics ≢ []
      → All IsText u.topics
      → parse_unsubscribe (u16_be u.packet_id ++ (properties ++ encode_topics u.topics)) version
        ≡ ok (unsubscribe u)
  unfolding parse_unsubscribe
  parse-encode_unsubscribe u id some_topic texts =
      let rest = encode_topics u.topics in
      rw (
        long_enough 4 u.packet_id properties rest
            (omega (arith, length-topics u.topics some_topic)),
        read-u16_be u.packet_id (properties ++ rest) id,
        skip-default version properties rest encoded,
        loop-topics u.topics (length (u16_be u.packet_id ++ (properties ++ rest))) texts
            (omega (arith, length-append properties rest)),
      )
