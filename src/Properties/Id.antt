-- ===== src/Properties/Id.antt =====
-- src/properties.rs: the identifier table, `mod id`.
use jack_hotaru_mqtt.Base.{ℕ}

abbrev pub payload_format_indicator : ℕ
payload_format_indicator = 0x01

abbrev pub message_expiry_interval : ℕ
message_expiry_interval = 0x02

abbrev pub content_type : ℕ
content_type = 0x03

abbrev pub response_topic : ℕ
response_topic = 0x08

abbrev pub correlation_data : ℕ
correlation_data = 0x09

abbrev pub subscription_identifier : ℕ
subscription_identifier = 0x0b

abbrev pub session_expiry_interval : ℕ
session_expiry_interval = 0x11

abbrev pub assigned_client_identifier : ℕ
assigned_client_identifier = 0x12

abbrev pub server_keep_alive : ℕ
server_keep_alive = 0x13

abbrev pub authentication_method : ℕ
authentication_method = 0x15

abbrev pub authentication_data : ℕ
authentication_data = 0x16

abbrev pub request_problem_information : ℕ
request_problem_information = 0x17

abbrev pub will_delay_interval : ℕ
will_delay_interval = 0x18

abbrev pub request_response_information : ℕ
request_response_information = 0x19

abbrev pub response_information : ℕ
response_information = 0x1a

abbrev pub server_reference : ℕ
server_reference = 0x1c

abbrev pub reason_string : ℕ
reason_string = 0x1f

abbrev pub receive_maximum : ℕ
receive_maximum = 0x21

abbrev pub topic_alias_maximum : ℕ
topic_alias_maximum = 0x22

abbrev pub topic_alias : ℕ
topic_alias = 0x23

abbrev pub maximum_qos : ℕ
maximum_qos = 0x24

abbrev pub retain_available : ℕ
retain_available = 0x25

abbrev pub user_property : ℕ
user_property = 0x26

abbrev pub maximum_packet_size : ℕ
maximum_packet_size = 0x27

abbrev pub wildcard_subscription_available : ℕ
wildcard_subscription_available = 0x28

abbrev pub subscription_identifier_available : ℕ
subscription_identifier_available = 0x29

abbrev pub shared_subscription_available : ℕ
shared_subscription_available = 0x2a
