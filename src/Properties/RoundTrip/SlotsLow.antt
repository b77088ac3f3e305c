-- ===== src/Properties/RoundTrip/SlotsLow.antt =====
-- Where each property of the table is stored, and that `parse_value` stores it there.
use jack_hotaru_mqtt.Base.{ℕ, refl, List, Str, arith}
use jack_hotaru_mqtt.Properties.Id
use jack_hotaru_mqtt.Properties.Read.{read_u8, read_u16, read_u32, read_string, read_binary}
use jack_hotaru_mqtt.Properties.Parse.{parse_value}
use jack_hotaru_mqtt.Properties.RoundTrip.Field.{Slot, Uses, or_else}

abbrev pub payload_format_indicator : Slot ℕ
payload_format_indicator = record {
  id = Id.payload_format_indicator;
  put = λ v q. record q { payload_format_indicator = or_else v q.payload_format_indicator };
  small = omega arith;
  once = refl;
  absent = λ q. refl;
}

pub payload_format_indicator_stored : Uses payload_format_indicator read_u8
unfolding parse_value
payload_format_indicator_stored q input rest v e = rw e

abbrev pub message_expiry_interval : Slot ℕ
message_expiry_interval = record {
  id = Id.message_expiry_interval;
  put = λ v q. record q { message_expiry_interval = or_else v q.message_expiry_interval };
  small = omega arith;
  once = refl;
  absent = λ q. refl;
}

pub message_expiry_interval_stored : Uses message_expiry_interval read_u32
unfolding parse_value
message_expiry_interval_stored q input rest v e = rw e

abbrev pub content_type : Slot Str
content_type = record {
  id = Id.content_type;
  put = λ v q. record q { content_type = or_else v q.content_type };
  small = omega arith;
  once = refl;
  absent = λ q. refl;
}

pub content_type_stored : Uses content_type read_string
unfolding parse_value
content_type_stored q input rest v e = rw e

abbrev pub response_topic : Slot Str
response_topic = record {
  id = Id.response_topic;
  put = λ v q. record q { response_topic = or_else v q.response_topic };
  small = omega arith;
  once = refl;
  absent = λ q. refl;
}

pub response_topic_stored : Uses response_topic read_string
unfolding parse_value
response_topic_stored q input rest v e = rw e

abbrev pub correlation_data : Slot (List ℕ)
correlation_data = record {
  id = Id.correlation_data;
  put = λ v q. record q { correlation_data = or_else v q.correlation_data };
  small = omega arith;
  once = refl;
  absent = λ q. refl;
}

pub correlation_data_stored : Uses correlation_data read_binary
unfolding parse_value
correlation_data_stored q input rest v e = rw e

abbrev pub session_expiry_interval : Slot ℕ
session_expiry_interval = record {
  id = Id.session_expiry_interval;
  put = λ v q. record q { session_expiry_interval = or_else v q.session_expiry_interval };
  small = omega arith;
  once = refl;
  absent = λ q. refl;
}

pub session_expiry_interval_stored : Uses session_expiry_interval read_u32
unfolding parse_value
session_expiry_interval_stored q input rest v e = rw e

abbrev pub assigned_client_identifier : Slot Str
assigned_client_identifier = record {
  id = Id.assigned_client_identifier;
  put = λ v q. record q { assigned_client_identifier = or_else v q.assigned_client_identifier };
  small = omega arith;
  once = refl;
  absent = λ q. refl;
}

pub assigned_client_identifier_stored : Uses assigned_client_identifier read_string
unfolding parse_value
assigned_client_identifier_stored q input rest v e = rw e

abbrev pub server_keep_alive : Slot ℕ
server_keep_alive = record {
  id = Id.server_keep_alive;
  put = λ v q. record q { server_keep_alive = or_else v q.server_keep_alive };
  small = omega arith;
  once = refl;
  absent = λ q. refl;
}

pub server_keep_alive_stored : Uses server_keep_alive read_u16
unfolding parse_value
server_keep_alive_stored q input rest v e = rw e

abbrev pub authentication_method : Slot Str
authentication_method = record {
  id = Id.authentication_method;
  put = λ v q. record q { authentication_method = or_else v q.authentication_method };
  small = omega arith;
  once = refl;
  absent = λ q. refl;
}

pub authentication_method_stored : Uses authentication_method read_string
unfolding parse_value
authentication_method_stored q input rest v e = rw e

abbrev pub authentication_data : Slot (List ℕ)
authentication_data = record {
  id = Id.authentication_data;
  put = λ v q. record q { authentication_data = or_else v q.authentication_data };
  small = omega arith;
  once = refl;
  absent = λ q. refl;
}

pub authentication_data_stored : Uses authentication_data read_binary
unfolding parse_value
authentication_data_stored q input rest v e = rw e

abbrev pub request_problem_information : Slot ℕ
request_problem_information = record {
  id = Id.request_problem_information;
  put = λ v q. record q { request_problem_information = or_else v q.request_problem_information };
  small = omega arith;
  once = refl;
  absent = λ q. refl;
}

pub request_problem_information_stored : Uses request_problem_information read_u8
unfolding parse_value
request_problem_information_stored q input rest v e = rw e

abbrev pub will_delay_interval : Slot ℕ
will_delay_interval = record {
  id = Id.will_delay_interval;
  put = λ v q. record q { will_delay_interval = or_else v q.will_delay_interval };
  small = omega arith;
  once = refl;
  absent = λ q. refl;
}

pub will_delay_interval_stored : Uses will_delay_interval read_u32
unfolding parse_value
will_delay_interval_stored q input rest v e = rw e

abbrev pub request_response_information : Slot ℕ
request_response_information = record {
  id = Id.request_response_information;
  put = λ v q. record q { request_response_information = or_else v q.request_response_information };
  small = omega arith;
  once = refl;
  absent = λ q. refl;
}

pub request_response_information_stored : Uses request_response_information read_u8
unfolding parse_value
request_response_information_stored q input rest v e = rw e
