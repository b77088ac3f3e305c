-- ===== src/Protocol/Client/Leaving.antt =====
-- The end of a client's loop, and the writer that is still to write what is queued.
use jack_hotaru_mqtt.Base.{
  ℕ, ◌≡◌, refl, ap, ◌∙◌, true, false, List, [], ◌∷◌, ◌++◌, length, replicate, All, All-append,
  if◌then◌else◌, arith,
}
use jack_hotaru_mqtt.Error.{Result, ok}
use jack_hotaru_mqtt.Packet.{Packet}
use jack_hotaru_mqtt.Codec.Encode.{encode_packet}
use jack_hotaru_mqtt.Codec.Stream.{read_packet}
use jack_hotaru_mqtt.Codec.RoundTrip.Packets.{decode-encode_packet}
use jack_hotaru_mqtt.Session.{abandon}
use jack_hotaru_mqtt.Channel
use jack_hotaru_mqtt.Channel.{MqttChannel, WriteCmd, protocol_version, send_packet, close}
use jack_hotaru_mqtt.Channel.Writer.{WriterState, Turn, receive, notified, turn, turns}
use jack_hotaru_mqtt.Channel.Writer.Delivery.{
  Sendable, packets_of, read_many, queue_reaches_peer, notified_drops,
}
use jack_hotaru_mqtt.Protocol.{Connection, dispatch_client_inbound}
use jack_hotaru_mqtt.Protocol.Client.Ticks.{serve_running}
use jack_hotaru_mqtt.Protocol.Server.Store.{queued, send_packet-queued}
use jack_hotaru_mqtt.Protocol.Client.{
  running, left, Session, inbound, serve, on_inbound, leave, on_wire,
}

-- The channel after the last DISCONNECT and `close`.
abbrev last_channel : MqttChannel → MqttChannel
last_channel channel = record (queued (Channel.packet Packet.disconnect) channel) {
  is_open = false;
  session = abandon channel.session;
}

close-open :
    (channel : MqttChannel)
    → channel.is_open ≡ true
    → close channel ≡ record channel { is_open = false; session = abandon channel.session }
unfolding close
close-open channel opened =
    ap
      (λ b.
        if b
        then record channel { is_open = false; session = abandon channel.session }
        else channel)
      opened

leave-last :
    (rest : List ℕ) (c : Connection)
    → c.channel.is_open ≡ true
    → c.channel.listening ≡ true
    → leave rest c
      ≡ record { reader = rest; phase = left; connection = on_wire (last_channel c.channel) c }
leave-last rest c opened listens =
    let ending = λ (channel : MqttChannel).
      let s : Session = record { reader = rest; phase = left; connection = on_wire channel c } in
      s in
    ap (λ (r : Result (Unit {0}) × MqttChannel). ending (close r.1))
      (send_packet-queued Packet.disconnect c.channel listens)
    ∙ ap ending (close-open (queued (Channel.packet Packet.disconnect) c.channel) opened)

leaves :
    (rest : List ℕ) (s : Session)
    → s.phase ≡ running
    → s.connection.channel.is_open ≡ true
    → s.connection.channel.listening ≡ true
    → s.reader ≡ 0xe0 ∷ 0x00 ∷ rest
    → serve inbound s ≡ record {
      reader = rest;
      phase = left;
      connection = on_wire (last_channel s.connection.channel) s.connection;
    }
leaves rest s runs opened listens starts =
    let version = protocol_version s.connection.channel in
    let read : read_packet s.reader version ≡ ok (Packet.disconnect, rest) =
      ap (λ reader. read_packet reader version) starts
      ∙ (decode-encode_packet Packet.disconnect version (0xe0 ∷ 0x00 ∷ []) rest tt
          (unfold encode_packet in refl) (ground arith)).1 in
    let handled : on_inbound s.reader (ok (Packet.disconnect, rest)) s.connection
        ≡ leave rest s.connection =
      unfold dispatch_client_inbound in refl in
    serve_running inbound s runs opened
    ∙ (ap (λ r. on_inbound s.reader r s.connection) read
        ∙ (handled ∙ leave-last rest s.connection opened listens))

-- A client in its loop reads a DISCONNECT, while its writer has commands to write, of packets that the
-- wire can represent: the loop queues a DISCONNECT of its own, and the channel is closed. Whether that
-- DISCONNECT and what is queued before it is sent depends on what the writer meets first. If it takes as
-- many commands as are queued, the peer reads all packets of the queue in order, the DISCONNECT last;
-- if it is notified of the close, nothing of them is written, whatever turns would follow.
pub disconnect_races :
    (s : Session) (rest written : List ℕ) (ts : List Turn)
    → s.phase ≡ running
    → s.connection.channel.is_open ≡ true
    → s.connection.channel.listening ≡ true
    → s.reader ≡ 0xe0 ∷ 0x00 ∷ rest
    → All (Sendable (protocol_version s.connection.channel)) s.connection.channel.queue
    → let after = serve inbound s in
      let queue = s.connection.channel.queue ++ (Channel.packet Packet.disconnect ∷ []) in
      let writer : WriterState = record { channel = after.connection.channel; written = written } in
      (after.phase ≡ left)
      × (after.connection.channel.is_open ≡ false)
      × ((wire : List ℕ) × ((turns (replicate (length queue) receive) writer).written
            ≡ written ++ wire)
          × ((more : List ℕ)
              → read_many
                  (length (packets_of queue))
                  (wire ++ more)
                  (protocol_version s.connection.channel)
                ≡ ok (packets_of queue, more)))
      × ((turns ts (turn notified writer)).written ≡ written)
unfolding protocol_version
disconnect_races s rest written ts runs opened listens starts fits =
    let queue = s.connection.channel.queue ++ (Channel.packet Packet.disconnect ∷ []) in
    let version = protocol_version s.connection.channel in
    let writer : WriterState = record {
      channel = last_channel s.connection.channel;
      written = written;
    } in
    let fitting : All (Sendable version) queue =
      All-append (Sendable version) s.connection.channel.queue _ fits
        ((tt, 0xe0 ∷ 0x00 ∷ [], (unfold encode_packet in refl), ground arith), tt) in
    let (wire, empty, done, reads) = queue_reaches_peer writer listens fitting in
    rw (leaves rest s runs opened listens starts) (
      refl,
      refl,
      (wire, done, reads),
      (notified_drops writer ts (Channel.packet Packet.disconnect) listens).0,
    )
