-- ===== src/Properties/Parse.antt =====
-- src/properties.rs: `Properties::parse`. The u64 `seen` is the list of the identifiers whose bit is
-- set; an identifier is a byte, and `checked_shl` fails from 64 on.
use jack_hotaru_mqtt.Base.{
  ℕ, zero, suc, List, [], ◌∷◌, ◌++◌, Bool, ◌||◌, length, take, drop, any, leb, ◌==◌, if◌then◌else◌,
  some,
}
use jack_hotaru_mqtt.Error.{
  Result, ok, err, ◌>>=◌, ◌>>◌, guard, protocol, codec, io, unexpected_eof, unknown_property,
  duplicate_property,
}
use jack_hotaru_mqtt.Properties.{Properties, default}
use jack_hotaru_mqtt.Properties.Id
use jack_hotaru_mqtt.Properties.Read.{
  read_u8, read_u16, read_u32, read_string, read_binary, read_vbi,
}
use jack_hotaru_mqtt.Properties.Validate.{validate_values}

abbrev pub repeatable : ℕ → Bool
repeatable property_id =
    property_id == Id.user_property || property_id == Id.subscription_identifier

abbrev pub mark_seen : ℕ → List ℕ → Result (List ℕ)
mark_seen property_id seen =
    if repeatable property_id
    then ok seen
    else if leb 64 property_id
    then err (protocol (unknown_property property_id))
    else if any (λ j. j == property_id) seen
    then err (protocol (duplicate_property property_id))
    else ok (property_id ∷ seen)

-- Read one value and store it.
abbrev pub store {ℓ} :
    {A : Type ℓ} → Result (A × List ℕ) → (A → Properties) → Result (Properties × List ℕ)
store read set = do (value, rest) ← read; ok (set value, rest)

-- The `match` on the identifier.
unfoldable pub parse_value : ℕ → Properties → List ℕ → Result (Properties × List ℕ)
parse_value property_id properties input =
    if property_id == Id.payload_format_indicator
    then store (read_u8 input) (λ v. record properties { payload_format_indicator = some v })
    else if property_id == Id.message_expiry_interval
    then store (read_u32 input) (λ v. record properties { message_expiry_interval = some v })
    else if property_id == Id.content_type
    then store (read_string input) (λ v. record properties { content_type = some v })
    else if property_id == Id.response_topic
    then store (read_string input) (λ v. record properties { response_topic = some v })
    else if property_id == Id.correlation_data
    then store (read_binary input) (λ v. record properties { correlation_data = some v })
    else if property_id == Id.subscription_identifier
    then store (read_vbi input) (λ v. record properties {
      subscription_identifiers = properties.subscription_identifiers ++ (v ∷ []);
    })
    else if property_id == Id.session_expiry_interval
    then store (read_u32 input) (λ v. record properties { session_expiry_interval = some v })
    else if property_id == Id.assigned_client_identifier
    then store (read_string input) (λ v. record properties { assigned_client_identifier = some v })
    else if property_id == Id.server_keep_alive
    then store (read_u16 input) (λ v. record properties { server_keep_alive = some v })
    else if property_id == Id.authentication_method
    then store (read_string input) (λ v. record properties { authentication_method = some v })
    else if property_id == Id.authentication_data
    then store (read_binary input) (λ v. record properties { authentication_data = some v })
    else if property_id == Id.request_problem_information
    then store (read_u8 input) (λ v. record properties { request_problem_information = some v })
    else if property_id == Id.will_delay_interval
    then store (read_u32 input) (λ v. record properties { will_delay_interval = some v })
    else if property_id == Id.request_response_information
    then store (read_u8 input) (λ v. record properties { request_response_information = some v })
    else if property_id == Id.response_information
    then store (read_string input) (λ v. record properties { response_information = some v })
    else if property_id == Id.server_reference
    then store (read_string input) (λ v. record properties { server_reference = some v })
    else if property_id == Id.reason_string
    then store (read_string input) (λ v. record properties { reason_string = some v })
    else if property_id == Id.receive_maximum
    then store (read_u16 input) (λ v. record properties { receive_maximum = some v })
    else if property_id == Id.topic_alias_maximum
    then store (read_u16 input) (λ v. record properties { topic_alias_maximum = some v })
    else if property_id == Id.topic_alias
    then store (read_u16 input) (λ v. record properties { topic_alias = some v })
    else if property_id == Id.maximum_qos
    then store (read_u8 input) (λ v. record properties { maximum_qos = some v })
    else if property_id == Id.retain_available
    then store (read_u8 input) (λ v. record properties { retain_available = some v })
    else if property_id == Id.user_property
    then (do
      (key, rest) ← read_string input
      store (read_string rest) (λ v. record properties {
        user_properties = properties.user_properties ++ ((key, v) ∷ []);
      }))
    else if property_id == Id.maximum_packet_size
    then store (read_u32 input) (λ v. record properties { maximum_packet_size = some v })
    else if property_id == Id.wildcard_subscription_available
    then store (read_u8 input) (λ v. record properties { wildcard_subscription_available = some v })
    else if property_id == Id.subscription_identifier_available
    then store (read_u8 input)
        (λ v. record properties { subscription_identifier_available = some v })
    else if property_id == Id.shared_subscription_available
    then store (read_u8 input) (λ v. record properties { shared_subscription_available = some v })
    else err (protocol (unknown_property property_id))

-- The `while` loop. Every round takes a byte, so the length of the block is fuel enough; with no fuel
-- left the answer is an I/O error, which no property gives.
unfoldable pub parse_loop : ℕ → List ℕ → Properties → List ℕ → Result Properties
parse_loop fuel [] properties seen = ok properties
parse_loop zero (property_id ∷ input) properties seen = err io
parse_loop (suc fuel) (property_id ∷ input) properties seen = do
  seen' ← mark_seen property_id seen
  (properties', rest) ← parse_value property_id properties input
  parse_loop fuel rest properties' seen'

unfoldable pub parse : List ℕ → Result (Properties × List ℕ)
unfolding parse_loop
parse body = do
  (property_length, rest) ← read_vbi body
  guard (leb property_length (length rest)) (codec unexpected_eof)
  properties ← parse_loop property_length (take property_length rest) default []
  validate_values properties
  ok (properties, drop property_length rest)
