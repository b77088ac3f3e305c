-- ===== src/Channel.antt =====
-- src/channel.rs: the handle on a connection. All clones share one state; here it stands in a store
-- under its connection id. The queue is the unbounded channel to the writer actor. The addresses are
-- only handed on, and left out.
pub mod Writer
use jack_hotaru_mqtt.Base.{
  ℕ, ◌+◌, ◌%◌, ◌^◌, Bool, true, false, List, [], ◌∷◌, ◌++◌, Str, Option, none, some, if◌then◌else◌,
}
use jack_hotaru_mqtt.Error.{Result, ok, err, channel_closed}
use jack_hotaru_mqtt.Codes.ProtocolVersion
use jack_hotaru_mqtt.Codes.ProtocolVersion.{ProtocolVersion}
use jack_hotaru_mqtt.Packet.{Packet, PublishPacket}
use jack_hotaru_mqtt.Session
use jack_hotaru_mqtt.Session.{MqttSession, BindInfo, abandon}

-- `CONNECTION_COUNTER.fetch_add(1)`: the id, and the counter afterwards.
abbrev pub next_connection_id : ℕ → ℕ × ℕ
next_connection_id counter = (counter, (counter + 1) % 2 ^ 64)

-- hotaru_core's `ProtocolRole`, whose two variants the code matches on.
pub data ProtocolRole : Type 0 where
  server client : ProtocolRole

pub data WriteCmd : Type 0 where
  packet : Packet → WriteCmd
  publish : PublishPacket → WriteCmd
  flush shutdown : WriteCmd

-- `reader`: what is still to come on the wire, until somebody takes it. `version`: the level byte.
-- `listening`: the writer actor still holds the receiver.
pub record MqttChannel : Type 0 where
  pub reader : Option (List ℕ)
  pub connection_id : ℕ
  pub role : ProtocolRole
  pub session : MqttSession
  pub version : ℕ
  pub is_open : Bool
  pub queue : List WriteCmd
  pub listening : Bool

-- `MqttChannel::new`; the writer actor starts with it.
abbrev pub new : List ℕ → ℕ → ProtocolRole → MqttChannel
new reader connection_id role = record {
  reader = some reader;
  connection_id = connection_id;
  role = role;
  session = Session.new;
  version = ProtocolVersion.level ProtocolVersion.default;
  is_open = true;
  queue = [];
  listening = true;
}

-- The reader goes to the first who asks.
abbrev pub take_reader : MqttChannel → Option (List ℕ) × MqttChannel
take_reader channel = (channel.reader, record channel { reader = none })

unfoldable pub set_protocol_version : ProtocolVersion → MqttChannel → MqttChannel
set_protocol_version version channel = record channel { version = ProtocolVersion.level version }

-- `unwrap_or_default`.
abbrev pub or_default : Option ProtocolVersion → ProtocolVersion
or_default none = ProtocolVersion.default
or_default (some version) = version

unfoldable pub protocol_version : MqttChannel → ProtocolVersion
protocol_version channel = or_default (ProtocolVersion.from_level channel.version)

abbrev pub client_id_of : Option BindInfo → Option Str
client_id_of none = none
client_id_of (some info) = some info.client_id

abbrev pub client_id : MqttChannel → Option Str
client_id channel = client_id_of channel.session.bind

abbrev pub keep_alive_of : Option BindInfo → Option ℕ
keep_alive_of none = none
keep_alive_of (some info) = some info.keep_alive

abbrev pub keep_alive : MqttChannel → Option ℕ
keep_alive channel = keep_alive_of channel.session.bind

-- `cmd_tx.send(..)`, which fails exactly when the receiver is gone.
abbrev pub send : WriteCmd → MqttChannel → Result (Unit {0}) × MqttChannel
send cmd channel =
    if channel.listening
    then (ok tt, record channel { queue = channel.queue ++ (cmd ∷ []) })
    else (err channel_closed, channel)

unfoldable pub send_packet : Packet → MqttChannel → Result (Unit {0}) × MqttChannel
send_packet p channel = send (packet p) channel

unfoldable pub send_publish : PublishPacket → MqttChannel → Result (Unit {0}) × MqttChannel
send_publish p channel = send (publish p) channel

-- The first call ends the session's inflight state; later calls do nothing.
unfoldable pub close : MqttChannel → MqttChannel
close channel =
    if channel.is_open
    then record channel { is_open = false; session = abandon channel.session }
    else channel
