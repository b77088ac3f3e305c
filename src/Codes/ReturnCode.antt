-- ===== src/Codes/ReturnCode.antt =====
-- src/packet.rs: `ConnackReturnCode`, with the codes of both wire versions.
use jack_hotaru_mqtt.Base.{ℕ, Option, none, some, ◌==◌, if◌then◌else◌}

pub data ConnackReturnCode : Type 0 where
  accepted unacceptable_protocol_version identifier_rejected : ConnackReturnCode
  server_unavailable bad_username_or_password not_authorized : ConnackReturnCode

abbrev pub as_u8 : ConnackReturnCode → ℕ
as_u8 accepted = 0
as_u8 unacceptable_protocol_version = 1
as_u8 identifier_rejected = 2
as_u8 server_unavailable = 3
as_u8 bad_username_or_password = 4
as_u8 not_authorized = 5

abbrev pub to_v5_reason : ConnackReturnCode → ℕ
to_v5_reason accepted = 0x00
to_v5_reason unacceptable_protocol_version = 0x84
to_v5_reason identifier_rejected = 0x85
to_v5_reason server_unavailable = 0x88
to_v5_reason bad_username_or_password = 0x86
to_v5_reason not_authorized = 0x87

abbrev pub from_v5_reason : ℕ → Option ConnackReturnCode
from_v5_reason v =
    if v == 0x00
    then some accepted
    else if v == 0x84
    then some unacceptable_protocol_version
    else if v == 0x85
    then some identifier_rejected
    else if v == 0x88
    then some server_unavailable
    else if v == 0x86
    then some bad_username_or_password
    else if v == 0x87
    then some not_authorized
    else none

abbrev pub try_from : ℕ → Option ConnackReturnCode
try_from v =
    if v == 0
    then some accepted
    else if v == 1
    then some unacceptable_protocol_version
    else if v == 2
    then some identifier_rejected
    else if v == 3
    then some server_unavailable
    else if v == 4
    then some bad_username_or_password
    else if v == 5
    then some not_authorized
    else none
