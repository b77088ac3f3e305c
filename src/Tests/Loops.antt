-- ===== src/Tests/Loops.antt =====
-- A client: its handshake and its loop.
use jack_hotaru_mqtt.Base.{
  ℕ, inl, ◌≡◌, refl, false, List, [], ◌∷◌, ◌++◌, bytes, some, replicate, arith,
}
use jack_hotaru_mqtt.Error.{MqttError, ok, codec, invalid_packet_type}
use jack_hotaru_mqtt.Codes.QoS.{at_least_once}
use jack_hotaru_mqtt.Codes.ReturnCode.{accepted}
use jack_hotaru_mqtt.Codes.ProtocolVersion.{v311}
use jack_hotaru_mqtt.Properties.{default}
use jack_hotaru_mqtt.Request
use jack_hotaru_mqtt.Request.{
  PacketId, PublishRequest, TopicFilter, published, subscribed, acknowledged, completed,
}
use jack_hotaru_mqtt.Packet.{Packet, ConnackPacket}
use jack_hotaru_mqtt.Session.{AckSlot}
use jack_hotaru_mqtt.Codec.Encode.{encode_packet}
use jack_hotaru_mqtt.Wire.Length.{encode_remaining_length}
use jack_hotaru_mqtt.Channel
use jack_hotaru_mqtt.Channel.{MqttChannel, protocol_version}
use jack_hotaru_mqtt.Channel.Writer.{WriterState, receive, notified, turn, turns}
use jack_hotaru_mqtt.Channel.Writer.Delivery.{read_many}
use jack_hotaru_mqtt.Protocol.Client.Leaving.{disconnect_races}
use jack_hotaru_mqtt.Client
use jack_hotaru_mqtt.Client.{MqttClientConfig, build_connect}
use jack_hotaru_mqtt.Protocol.{Connection, dispatch_client_inbound, pending}
use jack_hotaru_mqtt.Protocol.Requests.{elapsed}
use jack_hotaru_mqtt.Protocol.Requests.Packets.{entries}
use jack_hotaru_mqtt.Protocol.Client.{
  Session, running, left, subscribing, failed, packet_read, inbound, ticked, serve, handle_client,
  after_dispatch, first_subscribed,
}
use jack_hotaru_mqtt.Protocol.Client.Handshake.{client_accepted}
use jack_hotaru_mqtt.Protocol.Client.Ticks.{tick_desyncs}
use jack_hotaru_mqtt.Protocol.Client.Subscribing.{
  Step, starts, turns_loop, steps, first_suback_unread,
}
use jack_hotaru_mqtt.Tests.Clients.{fresh, quiet, note, filters}

-- A PINGREQ is queued, and a DISCONNECT is on the wire.
abbrev ending : Session
ending = record {
  reader = 0xe0 ∷ 0x00 ∷ [];
  phase = running;
  connection = record quiet {
    channel = record fresh { queue = Channel.packet Packet.pingreq ∷ [] };
  };
}

disconnect_races_example :
    let after = serve inbound ending in
    let writer : WriterState = record { channel = after.connection.channel; written = [] } in
    (after.phase ≡ left)
    × (after.connection.channel.is_open ≡ false)
    × ((wire : List ℕ) × ((turns (replicate 2 receive) writer).written ≡ wire)
        × ((more : List ℕ)
            → read_many 2 (wire ++ more) v311 ≡ ok (Packet.pingreq ∷ Packet.disconnect ∷ [], more)))
    × ((turns (receive ∷ []) (turn notified writer)).written ≡ [])
unfolding protocol_version encode_packet
disconnect_races_example =
    disconnect_races ending [] [] (receive ∷ []) refl refl refl refl
      ((tt, 0xc0 ∷ 0x00 ∷ [], refl, ground arith), tt)

abbrev phone : MqttClientConfig (Unit {0})
phone = Client.new (bytes "alice")

abbrev welcome : ConnackPacket
welcome = record { properties = default; session_present = false; return_code = accepted }

abbrev calling : Connection
calling = record quiet {
  channel = Channel.new (0x20 ∷ 0x02 ∷ 0x00 ∷ 0x00 ∷ 0xd0 ∷ 0x00 ∷ []) 1 Channel.client;
}

client_accepted_example :
    let s = handle_client (some phone) 7 packet_read calling in
    (s.phase ≡ running)
    × (s.reader ≡ 0xd0 ∷ 0x00 ∷ [])
    × (s.connection.channel.queue ≡ Channel.packet (Packet.connect (build_connect phone)) ∷ [])
    × (s.connection.channel.version ≡ 4)
    × (s.connection.channel.session.bind
        ≡ some (record { client_id = bytes "alice"; keep_alive = 60 }))
unfolding encode_packet encode_remaining_length
client_accepted_example =
    client_accepted phone 7 welcome calling (0x20 ∷ 0x02 ∷ 0x00 ∷ 0x00 ∷ []) (0xd0 ∷ 0x00 ∷ [])
      (record { fits = refl; encoded = refl; short = ground arith; reads = refl; listens = refl })
      refl refl refl

-- A PUBACK is on the wire, and a PINGRESP behind it.
abbrev looping : Session
looping = record {
  reader = 0x40 ∷ 0x02 ∷ 0x00 ∷ 0x07 ∷ 0xd0 ∷ 0x00 ∷ [];
  phase = running;
  connection = quiet;
}

tick_desyncs_example :
    let ticking = serve (ticked 1) looping in
    let late = serve inbound ticking in
    (serve inbound looping
      ≡ after_dispatch (0xd0 ∷ 0x00 ∷ []) (dispatch_client_inbound (Packet.puback 7) quiet))
    × (ticking.phase ≡ running)
    × (ticking.connection.channel.queue ≡ Channel.packet Packet.pingreq ∷ [])
    × (late.phase ≡ failed (codec (invalid_packet_type 0)))
    × (late.connection.channel.is_open ≡ false)
    × (late.connection.dispatched ≡ [])
    × (late.connection.delivered ≡ [])
unfolding protocol_version encode_packet
tick_desyncs_example =
    tick_desyncs (Packet.puback 7) (0x40 ∷ 0x02 ∷ 0x00 ∷ 0x07 ∷ []) (0xd0 ∷ 0x00 ∷ []) 1 2
      (0x00 ∷ 0x07 ∷ []) looping refl refl refl (omega arith) refl (omega arith) refl refl
      (inl (omega arith))

-- A client with a first subscription; the SUBACK of its SUBSCRIBE is on the wire behind the CONNACK.
abbrev subscriber : MqttClientConfig (Unit {0})
subscriber = record phone { initial_subscriptions = filters }

abbrev suback_wire : List ℕ
suback_wire = 0x90 ∷ 0x03 ∷ 0x00 ∷ 0x01 ∷ 0x01 ∷ []

abbrev dialling : Connection
dialling = record quiet {
  channel = Channel.new ((0x20 ∷ 0x02 ∷ 0x00 ∷ 0x00 ∷ []) ++ suback_wire) 1 Channel.client;
}

abbrev meanwhile : List Step
meanwhile = turns_loop inbound ∷ starts 9 (Request.publish note) ∷ []

first_suback_unread_example :
    let waits = handle_client (some subscriber) 7 packet_read dialling in
    let later = steps meanwhile waits in
    let after = first_subscribed elapsed later in
    ((id : PacketId) × (waits.phase ≡ subscribing id)
      × (pending id waits.connection ≡ some (AckSlot.suback 7))
      × (waits.connection.channel.queue
          ≡ Channel.packet (Packet.connect (build_connect subscriber))
            ∷ Channel.packet
                (Packet.subscribe (record { packet_id = id; subscriptions = entries filters }))
            ∷ []))
    × (later.reader ≡ suback_wire)
    × ((e : MqttError) × (after.phase ≡ failed e))
    × (after.connection.channel.is_open ≡ false)
unfolding encode_packet encode_remaining_length
first_suback_unread_example =
    first_suback_unread subscriber 7 welcome dialling (0x20 ∷ 0x02 ∷ 0x00 ∷ 0x00 ∷ []) suback_wire
      (record { filter = bytes "n/+"; qos = at_least_once }) [] meanwhile elapsed
      (record { fits = refl; encoded = refl; short = ground arith; reads = refl; listens = refl })
      refl refl refl tt tt
