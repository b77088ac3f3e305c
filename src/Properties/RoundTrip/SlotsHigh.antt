-- ===== src/Properties/RoundTrip/SlotsHigh.antt =====
-- Where each property of the table is stored, and that `parse_value` stores it there.
use jack_hotaru_mqtt.Base.{ℕ, refl, Str, arith}
use jack_hotaru_mqtt.Properties.Id
use jack_hotaru_mqtt.Properties.Read.{read_u8, read_u16, read_u32, read_string}
use jack_hotaru_mqtt.Properties.Parse.{parse_value}
use jack_hotaru_mqtt.Properties.RoundTrip.Field.{Slot, Uses, or_else}

abbrev pub response_information : Slot Str
response_information = record {
  id = Id.response_information;
  put = λ v q. record q { response_information = or_else v q.response_information };
  small = omega arith;
  once = refl;
  absent = λ q. refl;
}

pub response_information_stored : Uses response_information read_string
unfolding parse_value
response_information_stored q input rest v e = rw e

abbrev pub server_reference : Slot Str
server_reference = record {
  id = Id.server_reference;
  put = λ v q. record q { server_reference = or_else v q.server_reference };
  small = omega arith;
  once = refl;
  absent = λ q. refl;
}

pub server_reference_stored : Uses server_reference read_string
unfolding parse_value
server_reference_stored q input rest v e = rw e

abbrev pub reason_string : Slot Str
reason_string = record {
  id = Id.reason_string;
  put = λ v q. record q { reason_string = or_else v q.reason_string };
  small = omega arith;
  once = refl;
  absent = λ q. refl;
}

pub reason_string_stored : Uses reason_string read_string
unfolding parse_value
reason_string_stored q input rest v e = rw e

abbrev pub receive_maximum : Slot ℕ
receive_maximum = record {
  id = Id.receive_maximum;
  put = λ v q. record q { receive_maximum = or_else v q.receive_maximum };
  small = omega arith;
  once = refl;
  absent = λ q. refl;
}

pub receive_maximum_stored : Uses receive_maximum read_u16
unfolding parse_value
receive_maximum_stored q input rest v e = rw e

abbrev pub topic_alias_maximum : Slot ℕ
topic_alias_maximum = record {
  id = Id.topic_alias_maximum;
  put = λ v q. record q { topic_alias_maximum = or_else v q.topic_alias_maximum };
  small = omega arith;
  once = refl;
  absent = λ q. refl;
}

pub topic_alias_maximum_stored : Uses topic_alias_maximum read_u16
unfolding parse_value
topic_alias_maximum_stored q input rest v e = rw e

abbrev pub topic_alias : Slot ℕ
topic_alias = record {
  id = Id.topic_alias;
  put = λ v q. record q { topic_alias = or_else v q.topic_alias };
  small = omega arith;
  once = refl;
  absent = λ q. refl;
}

pub topic_alias_stored : Uses topic_alias read_u16
unfolding parse_value
topic_alias_stored q input rest v e = rw e

abbrev pub maximum_qos : Slot ℕ
maximum_qos = record {
  id = Id.maximum_qos;
  put = λ v q. record q { maximum_qos = or_else v q.maximum_qos };
  small = omega arith;
  once = refl;
  absent = λ q. refl;
}

pub maximum_qos_stored : Uses maximum_qos read_u8
unfolding parse_value
maximum_qos_stored q input rest v e = rw e

abbrev pub retain_available : Slot ℕ
retain_available = record {
  id = Id.retain_available;
  put = λ v q. record q { retain_available = or_else v q.retain_available };
  small = omega arith;
  once = refl;
  absent = λ q. refl;
}

pub retain_available_stored : Uses retain_available read_u8
unfolding parse_value
retain_available_stored q input rest v e = rw e

abbrev pub maximum_packet_size : Slot ℕ
maximum_packet_size = record {
  id = Id.maximum_packet_size;
  put = λ v q. record q { maximum_packet_size = or_else v q.maximum_packet_size };
  small = omega arith;
  once = refl;
  absent = λ q. refl;
}

pub maximum_packet_size_stored : Uses maximum_packet_size read_u32
unfolding parse_value
maximum_packet_size_stored q input rest v e = rw e

abbrev pub wildcard_subscription_available : Slot ℕ
wildcard_subscription_available = record {
  id = Id.wildcard_subscription_available;
  put = λ v q. record q {
    wildcard_subscription_available = or_else v q.wildcard_subscription_available;
  };
  small = omega arith;
  once = refl;
  absent = λ q. refl;
}

pub wildcard_subscription_available_stored : Uses wildcard_subscription_available read_u8
unfolding parse_value
wildcard_subscription_available_stored q input rest v e = rw e

abbrev pub subscription_identifier_available : Slot ℕ
subscription_identifier_available = record {
  id = Id.subscription_identifier_available;
  put = λ v q. record q {
    subscription_identifier_available = or_else v q.subscription_identifier_available;
  };
  small = omega arith;
  once = refl;
  absent = λ q. refl;
}

pub subscription_identifier_available_stored : Uses subscription_identifier_available read_u8
unfolding parse_value
subscription_identifier_available_stored q input rest v e = rw e

abbrev pub shared_subscription_available : Slot ℕ
shared_subscription_available = record {
  id = Id.shared_subscription_available;
  put =
      λ v q. record q { shared_subscription_available = or_else v q.shared_subscription_available };
  small = omega arith;
  once = refl;
  absent = λ q. refl;
}

pub shared_subscription_available_stored : Uses shared_subscription_available read_u8
unfolding parse_value
shared_subscription_available_stored q input rest v e = rw e
