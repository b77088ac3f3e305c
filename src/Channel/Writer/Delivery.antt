-- ===== src/Channel/Writer/Delivery.antt =====
-- What is queued on a channel, its writer puts on the wire so that the peer reads it back.
use jack_hotaru_mqtt.Base.{
  ℕ, zero, suc, ◌^◌, ◌<◌, ◌≡◌, refl, sym, ◌∙◌, ap, ap₂, inl, inr, true, false, List, [], ◌∷◌, ◌++◌,
  append_assoc, append-nil, Option, none, some, length, replicate, All, arith,
}
use jack_hotaru_mqtt.Error.{Result, channel_closed, ok, err, ◌>>=◌}
use jack_hotaru_mqtt.Codes.QoS.{QoS, at_most_once, at_least_once, exactly_once, needs_id}
use jack_hotaru_mqtt.Codes.ProtocolVersion.{ProtocolVersion}
use jack_hotaru_mqtt.Packet.{Packet, PublishPacket}
use jack_hotaru_mqtt.Codec.Encode.{encode_packet}
use jack_hotaru_mqtt.Codec.Stream.{write_packet, read_packet}
use jack_hotaru_mqtt.Codec.Writers.{MayWrite, write-publish_packet}
use jack_hotaru_mqtt.Codec.RoundTrip.Wire.{IsWire, HasId}
use jack_hotaru_mqtt.Codec.RoundTrip.Packets.{decode-encode_packet}
use jack_hotaru_mqtt.Channel
use jack_hotaru_mqtt.Channel.{MqttChannel, WriteCmd, protocol_version}
use jack_hotaru_mqtt.Channel.Writer.{
  WriterState, Turn, receive, notified, stop, turn, turns, bytes_of, is_shutdown,
}

-- A packet that the wire can represent, with an encoding that the length field can hold.
abbrev pub Fitting : ProtocolVersion → Packet → Type 0
Fitting version packet =
    IsWire version packet
    × (wire : List ℕ) × (encode_packet packet version ≡ ok wire)
    × (length wire < 2 ^ 28)

abbrev pub Sendable : ProtocolVersion → WriteCmd → Type 0
Sendable version (Channel.packet p) = Fitting version p
Sendable version (Channel.publish p) = Fitting version (Packet.publish p)
Sendable version Channel.flush = Unit {0}
Sendable version Channel.shutdown = ⊥

-- The packets that a queue stands for.
abbrev pub packets_of : List WriteCmd → List Packet
packets_of [] = []
packets_of (Channel.packet p ∷ queue) = p ∷ packets_of queue
packets_of (Channel.publish p ∷ queue) = Packet.publish p ∷ packets_of queue
packets_of (Channel.flush ∷ queue) = packets_of queue
packets_of (Channel.shutdown ∷ queue) = packets_of queue

-- The peer reads `n` packets, one after the other.
abbrev pub read_many : ℕ → List ℕ → ProtocolVersion → Result (List Packet × List ℕ)
read_many zero reader version = ok ([], reader)
read_many (suc n) reader version = do
  (packet, r1) ← read_packet reader version
  (packets, r2) ← read_many n r1 version
  ok (packet ∷ packets, r2)

may_write :
    (q : QoS) (id : Option ℕ) (p : PublishPacket)
    → p.qos ≡ q
    → p.packet_id ≡ id
    → HasId q id
    → MayWrite p
may_write at_most_once id p e e' h = inl (ap needs_id e)
may_write at_least_once none p e e' h = absurd h
may_write at_least_once (some id) p e e' h = inr (id, e')
may_write exactly_once none p e e' h = absurd h
may_write exactly_once (some id) p e e' h = inr (id, e')

abbrev next : List WriteCmd → List ℕ → WriterState → WriterState
next rest bytes s = record {
  channel = record s.channel { queue = rest };
  written = s.written ++ bytes;
}

-- One turn with a command at the head of the queue.
turn-next :
    (cmd : WriteCmd) (rest : List WriteCmd) (bytes : List ℕ) (s : WriterState)
    → s.channel.listening ≡ true
    → s.channel.queue ≡ cmd ∷ rest
    → bytes_of cmd (protocol_version s.channel) ≡ ok bytes
    → is_shutdown cmd ≡ false
    → turn receive s ≡ next rest bytes s
unfolding turn protocol_version
turn-next cmd rest bytes s h q e live = ground (arith, h, q, e, live)

-- The whole queue, from a state on.
record Sent (queue : List WriteCmd) (s : WriterState) : Type 0 where
  wire : List ℕ
  done : turns (replicate (length queue) receive) s ≡ next [] wire s
  read :
      (more : List ℕ)
      → read_many (length (packets_of queue)) (wire ++ more) (protocol_version s.channel)
        ≡ ok (packets_of queue, more)

next-next :
    (queue : List WriteCmd) (bytes wire : List ℕ) (s : WriterState)
    → next [] wire (next queue bytes s) ≡ next [] (bytes ++ wire) s
next-next queue bytes wire s =
    ap {B = WriterState} (λ w. record { channel = record s.channel { queue = [] }; written = w })
      (append_assoc s.written bytes wire)

Sent-cons :
    (cmd : WriteCmd) (p : Packet) (bytes : List ℕ) (queue : List WriteCmd) (s : WriterState)
    → turn receive s ≡ next queue bytes s
    → packets_of (cmd ∷ queue) ≡ p ∷ packets_of queue
    → ((more : List ℕ) → read_packet (bytes ++ more) (protocol_version s.channel) ≡ ok (p, more))
    → Sent queue (next queue bytes s)
    → Sent (cmd ∷ queue) s
unfolding turns protocol_version
Sent-cons cmd p bytes queue s step first reads later = record {
  wire = bytes ++ later.wire;
  done =
      ap (turns (replicate (length queue) receive)) step
      ∙ (later.done ∙ next-next queue bytes later.wire s);
  read = λ more.
      rw (first, append_assoc bytes later.wire more, reads (later.wire ++ more), later.read more);
}

wait_written :
    (queue : List WriteCmd) (s : WriterState)
    → turn receive s ≡ next queue [] s
    → Sent queue (next queue [] s)
    → Sent (Channel.flush ∷ queue) s
unfolding turns protocol_version
wait_written queue s step later = record {
  wire = later.wire;
  done =
      ap (turns (replicate (length queue) receive)) step
      ∙ (later.done ∙ next-next queue [] later.wire s);
  read = later.read;
}

nothing_left : (s : WriterState) → s.channel.queue ≡ [] → s ≡ next [] [] s
nothing_left s q =
    ap₂ {C = WriterState}
      (λ queue w. record { channel = record s.channel { queue = queue }; written = w }) q
      (sym (append-nil s.written))

sends :
    (queue : List WriteCmd) (s : WriterState)
    → s.channel.listening ≡ true
    → s.channel.queue ≡ queue
    → All (Sendable (protocol_version s.channel)) queue
    → Sent queue s
unfolding protocol_version turns
sends [] s h q fit = record { wire = []; done = nothing_left s q; read = λ more. refl }
sends (Channel.packet p ∷ queue) s h q ((is_wire, wire, encoded, short), fit) =
    Sent-cons (Channel.packet p) p wire queue s
      (turn-next (Channel.packet p) queue wire s h q (unfold write_packet in encoded) refl) refl
      (λ more.
        (decode-encode_packet p (protocol_version s.channel) wire more is_wire encoded short).1)
      (sends queue (next queue wire s) h refl fit)
sends (Channel.publish p ∷ queue) s h q ((is_wire, wire, encoded, short), fit) =
    let same =
      write-publish_packet p (protocol_version s.channel)
        (may_write p.qos p.packet_id p refl refl is_wire.2) in
    Sent-cons (Channel.publish p) (Packet.publish p) wire queue s
      (turn-next (Channel.publish p) queue wire s h q (same ∙ encoded) refl) refl
      (λ more.
        (decode-encode_packet (Packet.publish p) (protocol_version s.channel) wire more is_wire
          encoded short).1)
      (sends queue (next queue wire s) h refl fit)
sends (Channel.flush ∷ queue) s h q (ok_flush, fit) =
    wait_written queue s (turn-next Channel.flush queue [] s h q refl refl)
      (sends queue (next queue [] s) h refl fit)
sends (Channel.shutdown ∷ queue) s h q (never, fit) = absurd never

-- From a queue whose packets the wire can represent, and that does not ask the writer to stop, as many
-- turns of the writer as there are commands leave it empty, and put bytes on the wire from which the
-- peer reads exactly the queued packets, in their order, and no byte more.
pub queue_reaches_peer :
    (s : WriterState)
    → s.channel.listening ≡ true
    → All (Sendable (protocol_version s.channel)) s.channel.queue
    → let after = turns (replicate (length s.channel.queue) receive) s in
      (wire : List ℕ) × (after.channel.queue ≡ [])
      × (after.written ≡ s.written ++ wire)
      × ((more : List ℕ)
          → read_many
              (length (packets_of s.channel.queue))
              (wire ++ more)
              (protocol_version s.channel)
            ≡ ok (packets_of s.channel.queue, more))
queue_reaches_peer s h fit =
    let sent = sends s.channel.queue s h refl fit in
    (
      sent.wire,
      ap (λ (t : WriterState). t.channel.queue) sent.done,
      ap (λ (t : WriterState). t.written) sent.done,
      sent.read,
    )

turns_ended : (ts : List Turn) (s : WriterState) → s.channel.listening ≡ false → turns ts s ≡ s
unfolding turns
turns_ended [] s h = refl
turns_ended (t ∷ ts) s h =
    let same : turn t s ≡ s = unfold turn in rw h in rw same (turns_ended ts s h)

-- A writer that is told to stop while commands are queued drops them: nothing more is written, and
-- no later send succeeds.
pub notified_drops :
    (s : WriterState) (ts : List Turn) (cmd : WriteCmd)
    → s.channel.listening ≡ true
    → let after = turns ts (turn notified s) in
      (after.written ≡ s.written)
      × (after.channel.queue ≡ [])
      × (after.channel.is_open ≡ false)
      × ((Channel.send cmd after.channel).0 ≡ err channel_closed)
notified_drops s ts cmd h =
    let stopped : turn notified s ≡ stop s = unfold turn in rw h in
    rw (stopped, turns_ended ts (stop s) (unfold stop in refl))
      (unfold stop in (refl, refl, refl, refl))
