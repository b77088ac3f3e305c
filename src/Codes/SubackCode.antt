-- ===== src/Codes/SubackCode.antt =====
-- src/request.rs: `SubackCode`.
use jack_hotaru_mqtt.Base.{ℕ, Option, none, some, ◌==◌, if◌then◌else◌}
use jack_hotaru_mqtt.Codes.QoS.{QoS, at_most_once, at_least_once, exactly_once}
use jack_hotaru_mqtt.Codes.QoS

pub data SubackCode : Type 0 where
  granted : QoS → SubackCode
  failure : SubackCode

abbrev pub as_u8 : SubackCode → ℕ
as_u8 (granted q) = QoS.as_u8 q
as_u8 failure = 0x80

abbrev pub from_u8 : ℕ → Option SubackCode
from_u8 v =
    if v == 0
    then some (granted at_most_once)
    else if v == 1
    then some (granted at_least_once)
    else if v == 2
    then some (granted exactly_once)
    else if v == 0x80
    then some failure
    else none
