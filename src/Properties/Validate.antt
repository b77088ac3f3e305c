-- ===== src/Properties/Validate.antt =====
-- src/properties.rs: `Properties::validate_values`.
use jack_hotaru_mqtt.Base.{
  ℕ, List, [], ◌∷◌, Bool, true, false, ◌||◌, ◌&&◌, not, Option, none, some, any, ltb, ◌==◌,
}
use jack_hotaru_mqtt.Error.{Result, ok, ◌>>◌, guard, protocol, malformed_property}
use jack_hotaru_mqtt.Properties.{Properties}
use jack_hotaru_mqtt.Properties.Id
use jack_hotaru_mqtt.Properties.Write.{max_variable_byte_integer}
use jack_hotaru_mqtt.Topic.{validate_publish_topic}

-- `value.is_some_and(|value| value > 1)`.
abbrev pub above_one : Option ℕ → Bool
above_one none = false
above_one (some value) = ltb 1 value

-- `self.field == Some(0)`.
abbrev pub is_zero : Option ℕ → Bool
is_zero none = false
is_zero (some value) = value == 0

abbrev pub is_some {ℓ} : {A : Type ℓ} → Option A → Bool
is_some none = false
is_some (some value) = true

abbrev pub reject_if : Bool → ℕ → Result (Unit {0})
reject_if test id = guard (not test) (protocol (malformed_property id))

-- The loop over the properties that hold 0 or 1.
abbrev pub check_flags : List (ℕ × Option ℕ) → Result (Unit {0})
check_flags [] = ok tt
check_flags ((id, value) ∷ flags) = do reject_if (above_one value) id; check_flags flags

abbrev pub check_response_topic : Option (List ℕ) → Result (Unit {0})
check_response_topic none = ok tt
check_response_topic (some topic) = validate_publish_topic topic

unfoldable pub validate_values : Properties → Result (Unit {0})
validate_values self = do
  check_flags (
      (Id.payload_format_indicator, self.payload_format_indicator)
      ∷ (Id.request_problem_information, self.request_problem_information)
      ∷ (Id.request_response_information, self.request_response_information)
      ∷ (Id.maximum_qos, self.maximum_qos)
      ∷ (Id.retain_available, self.retain_available)
      ∷ (Id.wildcard_subscription_available, self.wildcard_subscription_available)
      ∷ (Id.subscription_identifier_available, self.subscription_identifier_available)
      ∷ (Id.shared_subscription_available, self.shared_subscription_available)
      ∷ [])
  reject_if (is_zero self.receive_maximum) Id.receive_maximum
  reject_if (is_zero self.topic_alias) Id.topic_alias
  reject_if (is_zero self.maximum_packet_size) Id.maximum_packet_size
  reject_if (any (λ v. v == 0 || ltb max_variable_byte_integer v) self.subscription_identifiers)
      Id.subscription_identifier
  reject_if (is_some self.authentication_data && not (is_some self.authentication_method))
      Id.authentication_data
  check_response_topic self.response_topic
