-- ===== src/Broker/State/Delivery.antt =====
-- What `publish` puts into the queues of the subscribers.
mod Copies
use jack_hotaru_mqtt.Base.{
  ℕ, ◌==◌, ==_refl, ◌≡◌, refl, inl, inr, true, false, Bool-cases, List, [], ◌∷◌, ◌++◌, append-nil,
  some, none, insert, map, All, if◌then◌else◌, arith,
}
use jack_hotaru_mqtt.Codes.QoS.{QoS, needs_id}
use jack_hotaru_mqtt.Codes.QoS
use jack_hotaru_mqtt.Packet.{PublishPacket}
use jack_hotaru_mqtt.Session.{allocate_packet_id}
use jack_hotaru_mqtt.Session.Counter.{allocate_bounds}
use jack_hotaru_mqtt.Channel.{MqttChannel, send_publish}
use jack_hotaru_mqtt.Channel
use jack_hotaru_mqtt.Broker.State.{deliver, adjusted}
pub use Copies.{Delivered, IsCopy, IsKept, Counts, Changes, Changes-insert, nothing, and_then}

-- The copy that a subscriber of QoS `q` gets on a channel.
abbrev pub copy_for : PublishPacket → QoS → MqttChannel → PublishPacket
copy_for packet q channel =
    let effective = QoS.min packet.qos q in
    adjusted packet effective
      (if needs_id effective then some (allocate_packet_id channel.session).0 else none)

pub copy_for-IsCopy :
    (packet : PublishPacket) (q : QoS) (channel : MqttChannel)
    → IsCopy packet (copy_for packet q channel)
copy_for-IsCopy packet q channel = ground (arith, allocate_bounds channel.session)

pub queue_after :
    (packet : PublishPacket) (q : QoS) (channel : MqttChannel)
    → channel.listening ≡ true
    → (deliver packet q channel).queue
      ≡ channel.queue ++ (Channel.publish (copy_for packet q channel) ∷ [])
unfolding deliver send_publish
queue_after packet q channel h = ground (arith, h)

queue_kept :
    (packet : PublishPacket) (q : QoS) (channel : MqttChannel)
    → channel.listening ≡ false
    → (deliver packet q channel).queue ≡ channel.queue
unfolding deliver send_publish
queue_kept packet q channel h = ground (arith, h)

same_handle :
    (packet : PublishPacket) (q : QoS) (channel : MqttChannel)
    → let after = deliver packet q channel in
      (after.reader ≡ channel.reader)
      × (after.connection_id ≡ channel.connection_id)
      × (after.role ≡ channel.role)
      × (after.is_open ≡ channel.is_open)
      × (after.listening ≡ channel.listening)
      × (after.version ≡ channel.version)
unfolding deliver send_publish allocate_packet_id
same_handle packet q channel = ground arith

-- The session is the one before, or an identifier was allocated and the packet put in flight under it.
session_after :
    (packet : PublishPacket) (q : QoS) (channel : MqttChannel)
    → let (id, counted) = allocate_packet_id channel.session in
      (deliver packet q channel).session ≡ (
        if needs_id (QoS.min packet.qos q)
        then (record counted {
          outbound_inflight = insert (λ a b. a == b) id packet counted.outbound_inflight;
        })
        else channel.session)
unfolding deliver send_publish
session_after packet q channel = ground arith

same_session :
    (packet : PublishPacket) (q : QoS) (channel : MqttChannel)
    → let after = (deliver packet q channel).session in
      (after.bind ≡ channel.session.bind)
      × (after.qos2_recv ≡ channel.session.qos2_recv)
      × (after.pending_acks ≡ channel.session.pending_acks)
unfolding deliver send_publish allocate_packet_id
same_session packet q channel = ground arith

counted_once :
    (packet : PublishPacket) (q : QoS) (channel : MqttChannel)
    → Counts
        (if needs_id (QoS.min packet.qos q) then 1 else 0)
        channel.session.pkt_counter
        (deliver packet q channel).session.pkt_counter
unfolding allocate_packet_id
counted_once packet q channel = elim (Bool-cases (needs_id (QoS.min packet.qos q))) [
  | inl needed ↦ rw (session_after packet q channel, needed) refl
  | inr not_needed ↦ rw (session_after packet q channel, not_needed) refl
]

deliver-Changes :
    (packet : PublishPacket) (q : QoS) (channel : MqttChannel)
    → Changes packet channel.session.outbound_inflight
        (deliver packet q channel).session.outbound_inflight
unfolding allocate_packet_id
deliver-Changes packet q channel = elim (Bool-cases (needs_id (QoS.min packet.qos q))) [
  | inl needed ↦
      rw (session_after packet q channel, needed)
        (Changes-insert packet (allocate_packet_id channel.session).0
          channel.session.outbound_inflight)
  | inr not_needed ↦ rw (session_after packet q channel, not_needed) (λ id. inl refl)
]

deliver-IsKept :
    (packet : PublishPacket) (q : QoS) (channel : MqttChannel)
    → IsKept packet
        (deliver packet q channel).session.outbound_inflight
        (copy_for packet q channel).packet_id
deliver-IsKept packet q channel = elim (Bool-cases (needs_id (QoS.min packet.qos q))) [
  | inl needed ↦
      rw (session_after packet q channel, needed)
        (rw (==_refl (allocate_packet_id channel.session).0) refl)
  | inr not_needed ↦ rw (session_after packet q channel, not_needed) tt
]

-- Whatever was queued, given the copies: none, or the one.
with_copies :
    (packet : PublishPacket) (q : QoS) (channel : MqttChannel) (copies : List PublishPacket)
    → (deliver packet q channel).queue ≡ channel.queue ++ map Channel.publish copies
    → All (IsCopy packet) copies
    → All
        (λ (copy : PublishPacket).
          IsKept packet (deliver packet q channel).session.outbound_inflight copy.packet_id)
        copies
    → Delivered packet channel (deliver packet q channel)
with_copies packet q channel copies queued faithful kept =
    let (reader, connection_id, role, is_open, listening, version) = same_handle packet q channel in
    let (bind, recv, acks) = same_session packet q channel in
    record {
      copies = copies;
      queued = queued;
      faithful = faithful;
      same_reader = reader;
      same_connection_id = connection_id;
      same_role = role;
      same_open = is_open;
      same_listening = listening;
      same_version = version;
      same_bind = bind;
      same_recv = recv;
      same_acks = acks;
      allocations = if needs_id (QoS.min packet.qos q) then 1 else 0;
      counted = counted_once packet q channel;
      in_flight = deliver-Changes packet q channel;
      kept = kept;
    }

pub deliver-Delivered :
    (packet : PublishPacket) (q : QoS) (channel : MqttChannel)
    → Delivered packet channel (deliver packet q channel)
deliver-Delivered packet q channel = elim (Bool-cases channel.listening) [
  | inl listens ↦
      with_copies packet q channel (copy_for packet q channel ∷ [])
        (queue_after packet q channel listens) (copy_for-IsCopy packet q channel, tt)
        (deliver-IsKept packet q channel, tt)
  | inr gone ↦
      with_copies packet q channel []
        (rw (queue_kept packet q channel gone, append-nil channel.queue)) tt tt
]
