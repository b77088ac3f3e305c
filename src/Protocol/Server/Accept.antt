-- ===== src/Protocol/Server/Accept.antt =====
-- src/protocol.rs: `handle_server` before its loop, from the first packet to the CONNACK, with the
-- broker registered; and `close`, with which `handle` ends. The authenticator is a parameter: the
-- program's own code; an `AuthResult` is src/broker.rs's.
use jack_hotaru_mqtt.Base.{
  ℕ, zero, suc, ◌+◌, ◌/◌, ◌%◌, ltb, Bool, true, false, List, [], ◌∷◌, ◌++◌, Str, bytes, Option,
  none, some, if◌then◌else◌,
}
use jack_hotaru_mqtt.Error.{
  MqttError, Result, ok, err, configuration, timeout, connect_receive, protocol, expected_connect,
  connection_refused,
}
use jack_hotaru_mqtt.Codes.ReturnCode.{ConnackReturnCode}
use jack_hotaru_mqtt.Codes.ProtocolVersion
use jack_hotaru_mqtt.Properties
use jack_hotaru_mqtt.Request.{WillMessage}
use jack_hotaru_mqtt.Packet.{Packet, ConnectPacket, WillPacket}
use jack_hotaru_mqtt.Codec.Stream.{read_packet}
use jack_hotaru_mqtt.Session.{BindInfo, set_bind}
use jack_hotaru_mqtt.Channel.{MqttChannel, take_reader, set_protocol_version, send_packet, close}
use jack_hotaru_mqtt.Broker.State.{Broker, register_session}
use jack_hotaru_mqtt.Protocol.Server.{Hub, channel_of, with_channel, send_on}

pub record AuthResult : Type 0 where
  pub accepted : Bool
  pub return_code : ConnackReturnCode

abbrev pub accept : AuthResult
accept = record { accepted = true; return_code = ConnackReturnCode.accepted }

abbrev pub reject : ConnackReturnCode → AuthResult
reject code = record { accepted = false; return_code = code }

-- `AcceptAllAuthenticator`.
abbrev pub accept_all : ConnectPacket → AuthResult
accept_all connect = accept

-- Where `handle_server` is: in its loop, for a client; returned, after the loop; returned an error.
pub data Phase : Type 0 where
  running : Str → Phase
  left : Phase
  failed : MqttError → Phase

-- `reader`: what is still to come on the wire.
pub record Serving : Type 0 where
  pub reader : List ℕ
  pub phase : Phase
  pub hub : Hub

-- The wait for the first packet: it comes, or `CONNECT_RECEIVE_TIMEOUT` elapses.
pub data First : Type 0 where
  arrived elapsed : First

-- The decimal digits of a number below 10 ^ fuel.
abbrev pub decimal : ℕ → ℕ → Str
decimal zero n = []
decimal (suc fuel) n =
    let front = decimal fuel (n / 10) in
    let digit = b'0' + n % 10 in if ltb n 10 then digit ∷ [] else front ++ (digit ∷ [])

-- `format!("hotaru-auto-{}", connection_id)`; a u64 has at most 20 digits.
abbrev pub auto_id : ℕ → Str
auto_id connection_id = bytes "hotaru-auto-" ++ decimal 20 connection_id

abbrev pub or_auto : ℕ → Str → Str
or_auto connection_id [] = auto_id connection_id
or_auto connection_id (b ∷ s) = b ∷ s

abbrev pub will_of : Option WillPacket → Option WillMessage
will_of none = none
will_of (some w) =
    some (record { topic = w.topic; payload = w.payload; qos = w.qos; retain = w.retain })

abbrev pub connack_with : Bool → ConnackReturnCode → Packet
connack_with session_present code = Packet.connack (record {
  properties = Properties.default;
  session_present = session_present;
  return_code = code;
})

-- `session().bind().set(..)`, whose outcome is ignored.
abbrev pub bound : BindInfo → MqttChannel → MqttChannel
bound info channel = record channel { session = (set_bind info channel.session).1 }

module _ (conn : ℕ) where
  abbrev pub closed : Hub → Hub
  closed hub = with_channel conn (close (channel_of conn hub)) hub

  abbrev pub fail : List ℕ → MqttError → Hub → Serving
  fail reader e hub = record { reader = reader; phase = failed e; hub = closed hub }

  -- The CONNACK to an accepted client.
  abbrev pub enter : List ℕ → Str → Result (Unit {0}) × Hub → Serving
  enter reader client_id (ok u, hub) = record {
    reader = reader;
    phase = running client_id;
    hub = hub;
  }
  enter reader client_id (err e, hub) = fail reader e hub

  abbrev pub enter_with : List ℕ → Str → ℕ → Bool × Broker → Hub → Serving
  enter_with reader client_id keep_alive (session_present, broker) hub =
      let registered : Hub = record hub { broker = broker } in
      let info : BindInfo = record { client_id = client_id; keep_alive = keep_alive } in
      enter reader client_id (
        send_on conn (connack_with session_present ConnackReturnCode.accepted)
          (with_channel conn (bound info (channel_of conn registered)) registered))

  abbrev pub enter_as : List ℕ → Str → ConnectPacket → Hub → Serving
  enter_as reader client_id connect hub =
      enter_with reader client_id connect.keep_alive
        (register_session client_id conn (will_of connect.will) connect.clean_session hub.broker)
        hub

  abbrev pub on_auth : List ℕ → ConnectPacket → AuthResult → Hub → Serving
  on_auth reader connect auth hub =
      if auth.accepted
      then enter_as reader (or_auto (channel_of conn hub).connection_id connect.client_id) connect
          hub
      else fail reader (protocol (connection_refused auth.return_code))
          (send_on conn (connack_with false auth.return_code) hub).1

  module _ (authenticate : ConnectPacket → AuthResult) where
    abbrev pub on_first : List ℕ → Packet → Hub → Serving
    on_first reader (Packet.connect c) hub =
        on_auth reader c (authenticate c)
          (with_channel conn (set_protocol_version c.version (channel_of conn hub)) hub)
    on_first reader _ hub = fail reader (protocol expected_connect) hub

    abbrev pub on_read : List ℕ → Result (Packet × List ℕ) → Hub → Serving
    on_read before (ok (packet, reader)) hub = on_first reader packet hub
    on_read before (err e) hub = fail before e hub

    abbrev pub on_reader : First → Option (List ℕ) × MqttChannel → Hub → Serving
    on_reader first (none, channel) hub = fail [] (configuration "reader already taken") hub
    on_reader elapsed (some reader, channel) hub =
        fail reader (timeout connect_receive) (with_channel conn channel hub)
    on_reader arrived (some reader, channel) hub =
        on_read reader (read_packet reader ProtocolVersion.default) (with_channel conn channel hub)

    unfoldable pub handle_server : First → Hub → Serving
    unfolding set_bind close set_protocol_version send_packet register_session
    handle_server first hub = on_reader first (take_reader (channel_of conn hub)) hub
