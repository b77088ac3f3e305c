-- ===== src/Protocol/Instance.antt =====
-- src/protocol.rs: `MqttProtocol`, which the framework asks whether a connection is MQTT and which keeps
-- the client's connection for later requests. A channel is named by its connection id.
use jack_hotaru_mqtt.Base.{ℕ, ◌/◌, ◌^◌, ◌==◌, Bool, false, List, [], ◌∷◌, Option, none, some}
use jack_hotaru_mqtt.Error.{Result, ok, err, configuration, not_connected}
use jack_hotaru_mqtt.Channel
use jack_hotaru_mqtt.Channel.{ProtocolRole}

-- `session_channel`: a client has a slot that is set once; a server has none.
pub record MqttProtocol : Type 0 where
  pub role : ProtocolRole
  pub session_channel : Option (Option ℕ)

abbrev pub server : MqttProtocol
server = record { role = Channel.server; session_channel = none }

abbrev pub client : MqttProtocol
client = record { role = Channel.client; session_channel = some none }

-- Whether the first byte is that of a CONNECT.
unfoldable pub detect : List ℕ → Bool
detect [] = false
detect (b ∷ initial_bytes) = b / 2 ^ 4 == 1

-- `slot.set(channel)`: the first one stays.
abbrev pub stashed : Option (Option ℕ) → ℕ → Option (Option ℕ)
stashed none conn = none
stashed (some none) conn = some (some conn)
stashed (some (some first)) conn = some (some first)

unfoldable pub open_channel : MqttProtocol → ℕ → MqttProtocol
open_channel p conn = record p { session_channel = stashed p.session_channel conn }

abbrev pub acquired : Option (Option ℕ) → Result ℕ
acquired none = err (configuration "acquire_channel called on Server-mode MqttProtocol")
acquired (some none) = err (not_connected "call client.run_wire(wire) to establish session first")
acquired (some (some conn)) = ok conn

unfoldable pub acquire_channel : MqttProtocol → Result ℕ
acquire_channel p = acquired p.session_channel
