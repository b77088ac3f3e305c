-- ===== src/Codes/RoundTrip.antt =====
-- Each conversion to a byte is undone by the conversion back.
use jack_hotaru_mqtt.Base.{◌≡◌, refl, some, arith}
use jack_hotaru_mqtt.Codes.QoS
use jack_hotaru_mqtt.Codes.QoS.{QoS, at_most_once, at_least_once, exactly_once}
use jack_hotaru_mqtt.Codes.SubackCode
use jack_hotaru_mqtt.Codes.SubackCode.{SubackCode, granted, failure}
use jack_hotaru_mqtt.Codes.ReturnCode
use jack_hotaru_mqtt.Codes.ReturnCode.{ConnackReturnCode}

pub qos_of_as_u8 : (q : QoS) → QoS.from_u8 (QoS.as_u8 q) ≡ some q
qos_of_as_u8 at_most_once = refl
qos_of_as_u8 at_least_once = refl
qos_of_as_u8 exactly_once = refl

pub suback_of_as_u8 : (c : SubackCode) → SubackCode.from_u8 (SubackCode.as_u8 c) ≡ some c
suback_of_as_u8 (granted q) = ground arith
suback_of_as_u8 failure = refl

-- Both wire forms of a CONNACK code are read back.
pub return_code_read_back :
    (c : ConnackReturnCode)
    → (ReturnCode.try_from (ReturnCode.as_u8 c) ≡ some c)
      × (ReturnCode.from_v5_reason (ReturnCode.to_v5_reason c) ≡ some c)
return_code_read_back c = ground arith
