-- ===== src/Properties/Encode.antt =====
-- src/properties.rs: `Properties::encode` and `encode_values`. Each macro gives what it appends.
use jack_hotaru_mqtt.Base.{ℕ, List, [], ◌∷◌, ◌++◌, length}
use jack_hotaru_mqtt.Error.{Result, ok, ◌>>=◌, ◌>>◌}
use jack_hotaru_mqtt.Properties.{Properties}
use jack_hotaru_mqtt.Properties.Id
use jack_hotaru_mqtt.Properties.Write.{
  write_vbi, byte_property, two_byte_property, four_byte_property, string_property, binary_property,
  subscription_identifiers, user_properties,
}
use jack_hotaru_mqtt.Properties.Validate.{validate_values}

-- The pieces appended in order, up to the first that fails.
abbrev pub concat : List (Result (List ℕ)) → Result (List ℕ)
concat [] = ok []
concat (piece ∷ pieces) = do front ← piece; back ← concat pieces; ok (front ++ back)

unfoldable pub encode_values : Properties → Result (List ℕ)
encode_values self = concat (
    (byte_property Id.payload_format_indicator self.payload_format_indicator)
    ∷ (four_byte_property Id.message_expiry_interval self.message_expiry_interval)
    ∷ (string_property "property.content_type" Id.content_type self.content_type)
    ∷ (string_property "property.response_topic" Id.response_topic self.response_topic)
    ∷ (binary_property "property.correlation_data" Id.correlation_data self.correlation_data)
    ∷ (subscription_identifiers self.subscription_identifiers)
    ∷ (four_byte_property Id.session_expiry_interval self.session_expiry_interval)
    ∷ (string_property "property.assigned_client_identifier" Id.assigned_client_identifier
        self.assigned_client_identifier)
    ∷ (two_byte_property Id.server_keep_alive self.server_keep_alive)
    ∷ (string_property "property.authentication_method" Id.authentication_method
        self.authentication_method)
    ∷ (binary_property "property.authentication_data" Id.authentication_data
        self.authentication_data)
    ∷ (byte_property Id.request_problem_information self.request_problem_information)
    ∷ (four_byte_property Id.will_delay_interval self.will_delay_interval)
    ∷ (byte_property Id.request_response_information self.request_response_information)
    ∷ (string_property "property.response_information" Id.response_information
        self.response_information)
    ∷ (string_property "property.server_reference" Id.server_reference self.server_reference)
    ∷ (string_property "property.reason_string" Id.reason_string self.reason_string)
    ∷ (two_byte_property Id.receive_maximum self.receive_maximum)
    ∷ (two_byte_property Id.topic_alias_maximum self.topic_alias_maximum)
    ∷ (two_byte_property Id.topic_alias self.topic_alias)
    ∷ (byte_property Id.maximum_qos self.maximum_qos)
    ∷ (byte_property Id.retain_available self.retain_available)
    ∷ (user_properties self.user_properties)
    ∷ (four_byte_property Id.maximum_packet_size self.maximum_packet_size)
    ∷ (byte_property Id.wildcard_subscription_available self.wildcard_subscription_available)
    ∷ (byte_property Id.subscription_identifier_available self.subscription_identifier_available)
    ∷ (byte_property Id.shared_subscription_available self.shared_subscription_available)
    ∷ [])

unfoldable pub encode : Properties → Result (List ℕ)
unfolding encode_values
encode self = do
  validate_values self
  body ← encode_values self
  size ← write_vbi (length body)
  ok (size ++ body)
