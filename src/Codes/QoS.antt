-- ===== src/Codes/QoS.antt =====
-- src/request.rs: `QoS` and its conversions; `min` is the derived order's `Ord::min`.
use jack_hotaru_mqtt.Base.{ℕ, Option, none, some, Bool, true, false, ◌==◌, leb, if◌then◌else◌}

pub data QoS : Type 0 where
  at_most_once at_least_once exactly_once : QoS

abbrev pub as_u8 : QoS → ℕ
as_u8 at_most_once = 0
as_u8 at_least_once = 1
as_u8 exactly_once = 2

abbrev pub from_u8 : ℕ → Option QoS
from_u8 v =
    if v == 0
    then some at_most_once
    else if v == 1
    then some at_least_once
    else if v == 2
    then some exactly_once
    else none

-- `q != QoS::AtMostOnce`.
abbrev pub needs_id : QoS → Bool
needs_id at_most_once = false
needs_id at_least_once = true
needs_id exactly_once = true

abbrev pub min : QoS → QoS → QoS
min a b = if leb (as_u8 a) (as_u8 b) then a else b
