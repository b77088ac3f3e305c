-- ===== src/Protocol/Client.antt =====
-- src/protocol.rs: `handle_client`, cut where it waits, and `close`, with which `handle` ends.
pub mod Handshake
pub mod Ticks
pub mod Leaving
pub mod Subscribing
use jack_hotaru_mqtt.Base.{
  ℕ, Bool, true, false, List, [], ◌∷◌, Option, none, some, map, drop, if◌then◌else◌,
}
use jack_hotaru_mqtt.Error.{
  MqttError, Result, ok, err, io, configuration, timeout, connack, ack, protocol, expected_connack,
  connection_refused, channel_closed,
}
use jack_hotaru_mqtt.Codes.ReturnCode.{ConnackReturnCode}
use jack_hotaru_mqtt.Codes.SubackCode.{SubackCode}
use jack_hotaru_mqtt.Request.{PacketId, TopicFilter}
use jack_hotaru_mqtt.Packet
use jack_hotaru_mqtt.Packet.{Packet, ConnackPacket}
use jack_hotaru_mqtt.Codec.Stream.{read_packet}
use jack_hotaru_mqtt.Session.{AckSlot, Sender, BindInfo, set_bind}
use jack_hotaru_mqtt.Channel.{
  MqttChannel, take_reader, set_protocol_version, protocol_version, send_packet, close,
}
use jack_hotaru_mqtt.Client.{MqttClientConfig, build_connect}
use jack_hotaru_mqtt.Protocol.{Connection, dispatch_client_inbound}
use jack_hotaru_mqtt.Protocol.Requests.{
  Outcome, arrived, dropped, elapsed, allocate, register, to_subscription,
}

-- Where `handle_client` is: it waits for the SUBACK of its first subscriptions; in its loop; returned,
-- after the loop; returned an error.
pub data Phase : Type 0 where
  subscribing : PacketId → Phase
  running left : Phase
  failed : MqttError → Phase

-- `reader`: what is still to come on the wire.
pub record Session : Type 0 where
  pub reader : List ℕ
  pub phase : Phase
  pub connection : Connection

-- The wait for the CONNACK: a packet comes, or `connect_timeout` elapses.
pub data First : Type 0 where
  packet_read time_out : First

-- What `select!` comes back with: the next packet is complete, or the wire is closed; the ping timer
-- ticked, when the read that is given up for it had taken `n` bytes off the reader; the channel was
-- closed.
pub data Event : Type 0 where
  inbound : Event
  ticked : ℕ → Event
  notified : Event

abbrev pub on_wire : MqttChannel → Connection → Connection
on_wire channel c = record c { channel = channel }

abbrev pub fail : List ℕ → MqttError → Connection → Session
fail reader e c = record {
  reader = reader;
  phase = failed e;
  connection = on_wire (close c.channel) c;
}

-- The last DISCONNECT, whose outcome is ignored.
abbrev pub leave : List ℕ → Connection → Session
leave reader c = record {
  reader = reader;
  phase = left;
  connection = on_wire (close (send_packet Packet.disconnect c.channel).1) c;
}

abbrev pub enter : List ℕ → Connection → Session
enter reader c = record { reader = reader; phase = running; connection = c }

-- `return_code != Accepted`.
abbrev pub refused : ConnackReturnCode → Bool
refused ConnackReturnCode.accepted = false
refused _ = true

abbrev pub after_subscribe :
    List ℕ → PacketId → Connection → Result (Unit {0}) × MqttChannel → Session
after_subscribe reader id c (ok u, channel) = record {
  reader = reader;
  phase = subscribing id;
  connection = on_wire channel c;
}
after_subscribe reader id c (err e, channel) = fail reader e (on_wire channel c)

-- The first subscriptions, if any; `tx` is the oneshot channel of their SUBACK.
abbrev pub subscribe_first : Sender → List ℕ → List TopicFilter → Connection → Session
subscribe_first tx reader [] c = enter reader c
subscribe_first tx reader (tf ∷ tfs) c =
    let (id, channel) = allocate c.channel in
    after_subscribe reader id c (
      send_packet
        (Packet.subscribe
          (record { packet_id = id; subscriptions = map to_subscription (tf ∷ tfs) }))
        (register id (AckSlot.suback tx) channel))

-- `session().bind().set(..)`, whose outcome is ignored.
abbrev pub bound : BindInfo → MqttChannel → MqttChannel
bound info channel = record channel { session = (set_bind info channel.session).1 }

-- How the wait for the SUBACK ends.
unfoldable pub first_subscribed : Outcome (List SubackCode) → Session → Session
unfolding close
first_subscribed (arrived codes) s = enter s.reader s.connection
first_subscribed dropped s = fail s.reader channel_closed s.connection
first_subscribed elapsed s = fail s.reader (timeout ack) s.connection

module _ {H : Type 0} (config : MqttClientConfig H) (tx : Sender) where
  abbrev pub on_connack : List ℕ → ConnackPacket → Connection → Session
  on_connack reader answer c =
      let info : BindInfo = record {
        client_id = config.client_id;
        keep_alive = config.keep_alive_secs;
      } in
      if refused answer.return_code
      then fail reader (protocol (connection_refused answer.return_code)) c
      else subscribe_first tx reader config.initial_subscriptions (on_wire (bound info c.channel) c)

  abbrev pub on_first : List ℕ → Packet → Connection → Session
  on_first reader (Packet.connack answer) c = on_connack reader answer c
  on_first reader _ c = fail reader (protocol expected_connack) c

  abbrev pub on_read : List ℕ → Result (Packet × List ℕ) → Connection → Session
  on_read before (ok (packet, reader)) c = on_first reader packet c
  on_read before (err e) c = fail before e c

  abbrev pub await_connack : First → List ℕ → Result (Unit {0}) × MqttChannel → Connection → Session
  await_connack first reader (err e, channel) c = fail reader e (on_wire channel c)
  await_connack time_out reader (ok u, channel) c =
      fail reader (timeout connack) (on_wire channel c)
  await_connack packet_read reader (ok u, channel) c =
      on_read reader (read_packet reader config.protocol_version) (on_wire channel c)

  abbrev pub on_reader : First → Option (List ℕ) × MqttChannel → Connection → Session
  on_reader first (none, channel) c = fail [] (configuration "reader already taken") c
  on_reader first (some reader, channel) c =
      await_connack first reader
        (send_packet (Packet.connect (build_connect config))
          (set_protocol_version config.protocol_version channel))
        c

-- Up to the loop, or to the wait for the first SUBACK.
unfoldable pub handle_client :
    {H : Type 0} → Option (MqttClientConfig H) → Sender → First → Connection → Session
unfolding set_bind close set_protocol_version send_packet build_connect
handle_client none tx first c =
    fail [] (configuration "MqttClientConfig not registered in runtime statics") c
handle_client (some config) tx first c = on_reader config tx first (take_reader c.channel) c

abbrev pub after_dispatch : List ℕ → Result Bool × Connection → Session
after_dispatch reader (ok true, c) = leave reader c
after_dispatch reader (ok false, c) = enter reader c
after_dispatch reader (err e, c) = fail reader e c

abbrev pub on_inbound : List ℕ → Result (Packet × List ℕ) → Connection → Session
on_inbound before (ok (packet, reader)) c = after_dispatch reader (dispatch_client_inbound packet c)
on_inbound before (err io) c = leave before c
on_inbound before (err e) c = fail before e c

-- A PINGREQ that cannot be sent ends the loop.
abbrev pub on_ping : List ℕ → Connection → Result (Unit {0}) × MqttChannel → Session
on_ping reader c (ok u, channel) = enter reader (on_wire channel c)
on_ping reader c (err e, channel) = leave reader (on_wire channel c)

abbrev pub on_event : Event → List ℕ → Connection → Session
on_event inbound reader c = on_inbound reader (read_packet reader (protocol_version c.channel)) c
on_event (ticked n) reader c = on_ping (drop n reader) c (send_packet Packet.pingreq c.channel)
on_event notified reader c = leave reader c

abbrev pub serve_at : Phase → Event → Session → Session
serve_at running event s =
    if s.connection.channel.is_open
    then on_event event s.reader s.connection
    else leave s.reader s.connection
serve_at _ event s = s

-- One turn of the loop.
unfoldable pub serve : Event → Session → Session
unfolding protocol_version dispatch_client_inbound close send_packet
serve event s = serve_at s.phase event s
