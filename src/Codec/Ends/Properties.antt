-- ===== src/Codec/Ends/Properties.antt =====
-- `Properties::parse`: the loop takes at least one byte in each round.
use jack_hotaru_mqtt.Base.{
  ℕ, zero, suc, ◌≤◌, Bool, true, false, ◌&&◌, ◌||◌, List, [], ◌∷◌, Str, length, take, ltb, leb,
  ◌==◌, any, Option, none, some, split, not, is_empty, if◌then◌else◌, arith,
}
use jack_hotaru_mqtt.Error.{
  wildcard_in_publish_topic, empty_topic, topic_too_long, unknown_property, duplicate_property,
  malformed_property, Result, ok, err, ◌>>◌, guard, codec, protocol, unexpected_eof,
}
use jack_hotaru_mqtt.Topic.{
  validate_publish_topic, check_length, check_topic, has_wildcard, max_topic_len,
}
use jack_hotaru_mqtt.Properties.{Properties, default}
use jack_hotaru_mqtt.Properties.Id
use jack_hotaru_mqtt.Properties.Read.{read_vbi}
use jack_hotaru_mqtt.Properties.Validate.{
  validate_values, check_flags, check_response_topic, reject_if, above_one, is_zero, is_some,
}
use jack_hotaru_mqtt.Properties.Write.{max_variable_byte_integer}
use jack_hotaru_mqtt.Properties.Parse.{mark_seen, repeatable, parse_value, parse_loop, parse}
use jack_hotaru_mqtt.Codec.Ends.{
  Ends, Takes, Ends-then, Takes-end, Takes-then, Ends-Takes, Ends-guard, length-drop_le,
  length-take_le,
}
use jack_hotaru_mqtt.Codec.Ends.Readers.{codec-io, protocol-io, Takes-vbi}
use jack_hotaru_mqtt.Codec.Ends.Values.{Within-value}

Ends-if : {A : Type 0} (b : Bool) (r s : Result A) → Ends r → Ends s → Ends (if b then r else s)
Ends-if true r s h l = h
Ends-if false r s h l = l

Ends-mark : (property_id : ℕ) (seen : List ℕ) → Ends (mark_seen property_id seen)
Ends-mark property_id seen =
    let new =
      Ends-if (any (λ j. j == property_id) seen) (err (protocol (duplicate_property property_id)))
        (ok (property_id ∷ seen)) (protocol-io (duplicate_property property_id)) tt in
    Ends-if (repeatable property_id) (ok seen) _ tt (
      Ends-if (leb 64 property_id) (err (protocol (unknown_property property_id))) _
        (protocol-io (unknown_property property_id)) new)

Ends-loop :
    (fuel : ℕ) (input : List ℕ) (properties : Properties) (seen : List ℕ)
    → length input ≤ fuel
    → Ends (parse_loop fuel input properties seen)
unfolding parse_loop
Ends-loop fuel [] properties seen h = tt
Ends-loop zero (property_id ∷ input) properties seen h = absurd (omega (arith, h))
Ends-loop (suc fuel) (property_id ∷ input) properties seen h =
    Ends-then (mark_seen property_id seen) _ (Ends-mark property_id seen) (λ seen'.
      Takes-end (length input) (parse_value property_id properties input) _
        (Within-value property_id properties input).within
        (λ properties' rest fewer. Ends-loop fuel rest properties' seen' (omega (arith, h, fewer))))

Ends-reject : (test : Bool) (id : ℕ) → Ends (reject_if test id)
Ends-reject test id = Ends-guard (not test) _ (protocol-io (malformed_property id))

Ends-flags : (flags : List (ℕ × Option ℕ)) → Ends (check_flags flags)
Ends-flags [] = tt
Ends-flags ((id, value) ∷ flags) =
    Ends-then (reject_if (above_one value) id) _ (Ends-reject (above_one value) id)
      (λ done. Ends-flags flags)

Ends-topic : (segs : List Str) → Ends (check_topic segs)
unfolding check_topic
Ends-topic [] = tt
Ends-topic (seg ∷ segs) =
    Ends-if (has_wildcard seg) (err (protocol wildcard_in_publish_topic)) (check_topic segs)
      (protocol-io wildcard_in_publish_topic) (Ends-topic segs)

Ends-response_topic : (topic : Option Str) → Ends (check_response_topic topic)
unfolding validate_publish_topic
Ends-response_topic none = tt
Ends-response_topic (some topic) =
    Ends-then (check_length topic) _
      (Ends-then (guard (not (is_empty topic)) (protocol empty_topic))
        (λ done. guard (not (ltb max_topic_len (length topic))) (protocol topic_too_long))
        (Ends-guard (not (is_empty topic)) (protocol empty_topic) (protocol-io empty_topic))
        (λ done.
          Ends-guard (not (ltb max_topic_len (length topic))) (protocol topic_too_long)
            (protocol-io topic_too_long)))
      (λ done. Ends-topic (split topic))

rejects : (test : Bool) (id : ℕ) (k : Result (Unit {0})) → Ends k → Ends (reject_if test id >> k)
rejects true id k h = protocol-io (malformed_property id)
rejects false id k h = h

Ends-validate : (properties : Properties) → Ends (validate_values properties)
unfolding validate_values
Ends-validate self =
    let flags =
      (Id.payload_format_indicator, self.payload_format_indicator)
      ∷ (Id.request_problem_information, self.request_problem_information)
      ∷ (Id.request_response_information, self.request_response_information)
      ∷ (Id.maximum_qos, self.maximum_qos)
      ∷ (Id.retain_available, self.retain_available)
      ∷ (Id.wildcard_subscription_available, self.wildcard_subscription_available)
      ∷ (Id.subscription_identifier_available, self.subscription_identifier_available)
      ∷ (Id.shared_subscription_available, self.shared_subscription_available)
      ∷ [] in
    let topic = Ends-response_topic self.response_topic in
    let method =
      rejects (is_some self.authentication_data && not (is_some self.authentication_method))
        Id.authentication_data (check_response_topic self.response_topic) topic in
    let identifiers =
      rejects (any (λ v. v == 0 || ltb max_variable_byte_integer v) self.subscription_identifiers)
        Id.subscription_identifier _ method in
    let size = rejects (is_zero self.maximum_packet_size) Id.maximum_packet_size _ identifiers in
    let alias = rejects (is_zero self.topic_alias) Id.topic_alias _ size in
    let maximum = rejects (is_zero self.receive_maximum) Id.receive_maximum _ alias in
    Ends-then (check_flags flags) _ (Ends-flags flags) (λ done. maximum)

pub Takes-properties : (body : List ℕ) → Takes (length body) (parse body)
unfolding parse
Takes-properties body =
    Takes-then (length body) (length body) (read_vbi body) _ (Takes-vbi body) (λ n rest h.
      Ends-Takes (length body) (guard (leb n (length rest)) (codec unexpected_eof)) _
        (Ends-guard _ _ (codec-io unexpected_eof))
        (λ done.
          Ends-Takes (length body) (parse_loop n (take n rest) default []) _
            (Ends-loop n (take n rest) default [] (length-take_le n rest))
            (λ properties.
              Ends-Takes (length body) (validate_values properties) _ (Ends-validate properties)
                (λ valid. omega (arith, h, length-drop_le n rest)))))
