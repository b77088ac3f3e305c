-- ===== src/Session.antt =====
-- src/session.rs: the logical session of a connection. The receiver's end of a oneshot channel is
-- named by a number; the u16 counter wraps.
pub mod Counter
use jack_hotaru_mqtt.Base.{
  ℕ, ◌+◌, ◌%◌, ◌^◌, ◌==◌, ◌⊎◌, inl, inr, List, [], Str, Option, none, some, if◌then◌else◌,
}
use jack_hotaru_mqtt.Packet.{PublishPacket}
use jack_hotaru_mqtt.Request.{IncomingPublish, PacketId}

-- A `oneshot::Sender`, by the number of the task that awaits its receiver.
abbrev pub Sender : Type 0
Sender = ℕ

pub data AckSlot : Type 0 where
  puback pubrec pubcomp suback unsuback : Sender → AckSlot

pub record BindInfo : Type 0 where
  pub client_id : Str
  pub keep_alive : ℕ

pub record MqttSession : Type 0 where
  pub pkt_counter : ℕ
  pub bind : Option BindInfo
  pub qos2_recv : List (PacketId × IncomingPublish)
  pub pending_acks : List (PacketId × AckSlot)
  pub outbound_inflight : List (PacketId × PublishPacket)

abbrev pub new : MqttSession
new = record {
  pkt_counter = 0;
  bind = none;
  qos2_recv = [];
  pending_acks = [];
  outbound_inflight = [];
}

-- `fetch_add(1)` gives the old value and wraps; `wrapping_add(1)` is the new value.
unfoldable pub allocate_packet_id : MqttSession → PacketId × MqttSession
allocate_packet_id session =
    let id = (session.pkt_counter + 1) % 2 ^ 16 in
    (if id == 0 then 1 else id, record session { pkt_counter = id })

unfoldable pub abandon : MqttSession → MqttSession
abandon session = record session { pending_acks = []; qos2_recv = []; outbound_inflight = [] }

-- `OnceLock::set`: the first value stays, and a later one is handed back.
unfoldable pub set_bind : BindInfo → MqttSession → (Unit {0} ⊎ BindInfo) × MqttSession
set_bind info session = elim session.bind [
  | none ↦ (inl tt, record session { bind = some info })
  | some old ↦ (inr info, session)
]
