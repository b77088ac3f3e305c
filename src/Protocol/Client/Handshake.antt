-- ===== src/Protocol/Client/Handshake.antt =====
-- From the CONNECT of a client to its loop.
use jack_hotaru_mqtt.Base.{
  ℕ, ◌≡◌, refl, ap, ◌∙◌, ◌<◌, ◌^◌, true, false, List, [], ◌∷◌, ◌++◌, length, none, some, arith,
}
use jack_hotaru_mqtt.Error.{ok, protocol, connection_refused}
use jack_hotaru_mqtt.Codes.ReturnCode.{accepted}
use jack_hotaru_mqtt.Codes.ProtocolVersion
use jack_hotaru_mqtt.Packet.{Packet, ConnackPacket}
use jack_hotaru_mqtt.Codec.Encode.{encode_packet}
use jack_hotaru_mqtt.Codec.RoundTrip.Wire.{HasProperties}
use jack_hotaru_mqtt.Codec.RoundTrip.Packets.{decode-encode_packet}
use jack_hotaru_mqtt.Session.{Sender, set_bind}
use jack_hotaru_mqtt.Channel
use jack_hotaru_mqtt.Channel.{MqttChannel, set_protocol_version, send_packet, close}
use jack_hotaru_mqtt.Client.{MqttClientConfig, build_connect}
use jack_hotaru_mqtt.Protocol.{Connection}
use jack_hotaru_mqtt.Protocol.Client.{
  running, failed, packet_read, on_wire, refused, on_connack, on_reader, on_read, await_connack,
  handle_client,
}
use jack_hotaru_mqtt.Protocol.Server.Store.{queued, send_packet-queued}

module _ {H : Type 0} (config : MqttClientConfig H) (tx : Sender) (answer : ConnackPacket)
    (c : Connection) (wire rest : List ℕ) where
  -- The stream of the connection starts with a CONNACK.
  pub record Answers : Type 0 where
    pub fits : HasProperties config.protocol_version answer.properties
    pub encoded : encode_packet (Packet.connack answer) config.protocol_version ≡ ok wire
    pub short : length wire < 2 ^ 28
    pub reads : c.channel.reader ≡ some (wire ++ rest)
    pub listens : c.channel.listening ≡ true

  abbrev pub connect_sent : MqttChannel
  connect_sent =
      queued (Channel.packet (Packet.connect (build_connect config)))
        (set_protocol_version config.protocol_version (record c.channel { reader = none }))

  pub reaches_connack :
      Answers
      → handle_client (some config) tx packet_read c
        ≡ on_connack config tx rest answer (on_wire connect_sent c)
  unfolding handle_client
  reaches_connack a =
      let channel =
        set_protocol_version config.protocol_version (record c.channel { reader = none }) in
      let sent =
        send_packet-queued (Packet.connect (build_connect config)) channel
          (unfold set_protocol_version in a.listens) in
      let read =
        (decode-encode_packet (Packet.connack answer) config.protocol_version wire rest a.fits
          a.encoded a.short).1 in
      ap (λ o. on_reader config tx packet_read (o, record c.channel { reader = none }) c) a.reads
      ∙ (ap (λ r. await_connack config tx packet_read (wire ++ rest) r c) sent
          ∙ ap (λ r. on_read config tx (wire ++ rest) r (on_wire connect_sent c)) read)

  -- A client whose configuration names no first subscription sends its CONNECT. When it reads a CONNACK
  -- that accepts, on a connection without a binding, it goes on to its loop with what follows on the
  -- stream, bound under its own id, in the version that it asked for.
  pub client_accepted :
      Answers
      → answer.return_code ≡ accepted
      → config.initial_subscriptions ≡ []
      → c.channel.session.bind ≡ none
      → let s = handle_client (some config) tx packet_read c in
        (s.phase ≡ running)
        × (s.reader ≡ rest)
        × (s.connection.channel.queue
            ≡ c.channel.queue ++ (Channel.packet (Packet.connect (build_connect config)) ∷ []))
        × (s.connection.channel.version ≡ ProtocolVersion.level config.protocol_version)
        × (s.connection.channel.session.bind
            ≡ some (record { client_id = config.client_id; keep_alive = config.keep_alive_secs }))
  unfolding set_protocol_version set_bind
  client_accepted a accepts empty free = rw (reaches_connack a) (
    rw (accepts, empty) refl,
    rw (accepts, empty) refl,
    rw (accepts, empty) refl,
    rw (accepts, empty) refl,
    rw (accepts, empty, free) refl,
  )

  -- A client that reads a CONNACK that refuses it fails with the code of the CONNACK, and is closed.
  pub client_refused :
      Answers
      → refused answer.return_code ≡ true
      → let s = handle_client (some config) tx packet_read c in
        (s.phase ≡ failed (protocol (connection_refused answer.return_code)))
        × (s.connection.channel.is_open ≡ false)
  unfolding close set_protocol_version
  client_refused a refuses = rw (reaches_connack a) (rw refuses refl, rw refuses (ground arith))
