-- ===== src/Properties.antt =====
-- src/properties.rs: MQTT 5 property blocks. A `u8`, `u16` or `u32` is a number, a `Bytes` a list
-- of bytes.
pub mod Id
pub mod Read
pub mod Write
pub mod Validate
pub mod Parse
pub mod Encode
pub mod RoundTrip
use jack_hotaru_mqtt.Base.{ℕ, List, [], Str, Option, none}

pub record Properties : Type 0 where
  pub payload_format_indicator : Option ℕ
  pub message_expiry_interval : Option ℕ
  pub content_type : Option Str
  pub response_topic : Option Str
  pub correlation_data : Option (List ℕ)
  pub subscription_identifiers : List ℕ
  pub session_expiry_interval : Option ℕ
  pub assigned_client_identifier : Option Str
  pub server_keep_alive : Option ℕ
  pub authentication_method : Option Str
  pub authentication_data : Option (List ℕ)
  pub request_problem_information : Option ℕ
  pub will_delay_interval : Option ℕ
  pub request_response_information : Option ℕ
  pub response_information : Option Str
  pub server_reference : Option Str
  pub reason_string : Option Str
  pub receive_maximum : Option ℕ
  pub topic_alias_maximum : Option ℕ
  pub topic_alias : Option ℕ
  pub maximum_qos : Option ℕ
  pub retain_available : Option ℕ
  pub user_properties : List (Str × Str)
  pub maximum_packet_size : Option ℕ
  pub wildcard_subscription_available : Option ℕ
  pub subscription_identifier_available : Option ℕ
  pub shared_subscription_available : Option ℕ

-- `Properties::default()`: the empty block.
abbrev pub default : Properties
default = record {
  payload_format_indicator = none;
  message_expiry_interval = none;
  content_type = none;
  response_topic = none;
  correlation_data = none;
  subscription_identifiers = [];
  session_expiry_interval = none;
  assigned_client_identifier = none;
  server_keep_alive = none;
  authentication_method = none;
  authentication_data = none;
  request_problem_information = none;
  will_delay_interval = none;
  request_response_information = none;
  response_information = none;
  server_reference = none;
  reason_string = none;
  receive_maximum = none;
  topic_alias_maximum = none;
  topic_alias = none;
  maximum_qos = none;
  retain_available = none;
  user_properties = [];
  maximum_packet_size = none;
  wildcard_subscription_available = none;
  subscription_identifier_available = none;
  shared_subscription_available = none;
}
