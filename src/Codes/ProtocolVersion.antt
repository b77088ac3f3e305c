-- ===== src/Codes/ProtocolVersion.antt =====
-- src/packet.rs: `ProtocolVersion`.
use jack_hotaru_mqtt.Base.{ℕ, Option, none, some, Bool, true, false, ◌==◌, if◌then◌else◌}

pub data ProtocolVersion : Type 0 where
  v311 v5 : ProtocolVersion

-- `ProtocolVersion::default()`.
abbrev pub default : ProtocolVersion
default = v311

abbrev pub level : ProtocolVersion → ℕ
level v311 = 4
level v5 = 5

abbrev pub from_level : ℕ → Option ProtocolVersion
from_level l = if l == 4 then some v311 else if l == 5 then some v5 else none

-- `version == ProtocolVersion::V5`.
abbrev pub is_v5 : ProtocolVersion → Bool
is_v5 v311 = false
is_v5 v5 = true
