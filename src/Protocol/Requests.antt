-- ===== src/Protocol/Requests.antt =====
-- src/protocol.rs: the outbound requests. Each is cut at its awaits: `start` runs up to the first, and
-- `resume` from one to the next, once the wait has ended. Other tasks run in between.
pub mod Packets
pub mod Silent
pub mod Exchange
use jack_hotaru_mqtt.Base.{
  ℕ, Bool, true, false, List, [], ◌∷◌, ◌++◌, Str, Option, none, some, map, insert, if◌then◌else◌,
}
use jack_hotaru_mqtt.Error.{MqttError, Result, ok, err, ◌>>=◌, channel_closed}
use jack_hotaru_mqtt.Error
use jack_hotaru_mqtt.Codes.QoS.{QoS, at_most_once, at_least_once, exactly_once, needs_id}
use jack_hotaru_mqtt.Codes.SubackCode.{SubackCode}
use jack_hotaru_mqtt.Properties
use jack_hotaru_mqtt.Request
use jack_hotaru_mqtt.Request.{
  PacketId, PublishRequest, TopicFilter, MqttRequest, MqttResponse, PublishAck, published,
  subscribed, unsubscribed, sent, acknowledged, completed,
}
use jack_hotaru_mqtt.Packet
use jack_hotaru_mqtt.Packet.{Packet, PublishPacket, TopicSubscription}
use jack_hotaru_mqtt.Session.{AckSlot, Sender, allocate_packet_id}
use jack_hotaru_mqtt.Channel.{MqttChannel, send_packet, send_publish}
use jack_hotaru_mqtt.Protocol.{Connection, same_id, drop_ack}

-- What a request waits for, and what its oneshot channel carries.
pub data Wait : Type 0 where
  puback pubrec pubcomp suback unsuback : Wait

abbrev pub Value : Wait → Type 0
Value puback = PacketId
Value pubrec = PacketId
Value pubcomp = PacketId
Value suback = List SubackCode
Value unsuback = Unit {0}

-- How `timeout(DEFAULT_ACK_TIMEOUT, rx).await` ends.
pub data Outcome (A : Type 0) : Type 0 where
  arrived : A → Outcome A
  dropped elapsed : Outcome A

pub data Call : Type 0 where
  awaiting : Wait → PacketId → Call
  finished : Result MqttResponse → Call

abbrev pub slot : Wait → Sender → AckSlot
slot puback tx = AckSlot.puback tx
slot pubrec tx = AckSlot.pubrec tx
slot pubcomp tx = AckSlot.pubcomp tx
slot suback tx = AckSlot.suback tx
slot unsuback tx = AckSlot.unsuback tx

-- `pending_acks.insert(id, slot)`.
abbrev pub register : PacketId → AckSlot → MqttChannel → MqttChannel
register id ack channel = record channel {
  session = record channel.session {
    pending_acks = insert same_id id ack channel.session.pending_acks;
  };
}

-- `allocate_packet_id` on the channel's session.
abbrev pub allocate : MqttChannel → PacketId × MqttChannel
allocate channel =
    let (id, session) = allocate_packet_id channel.session in
    (id, record channel { session = session })

-- `send(..)?`, then the wait.
abbrev pub then_await :
    Wait → PacketId → Connection → Result (Unit {0}) × MqttChannel → Call × Connection
then_await w id c (ok u, channel) = (awaiting w id, record c { channel = channel })
then_await w id c (err e, channel) = (finished (err e), record c { channel = channel })

abbrev pub request_packet : PublishRequest → Option PacketId → PublishPacket
request_packet req id = record {
  properties = Properties.default;
  topic = req.topic;
  payload = req.payload;
  dup = false;
  qos = req.qos;
  retain = req.retain;
  packet_id = id;
}

abbrev pub then_sent : Connection → Result (Unit {0}) × MqttChannel → Call × Connection
then_sent c (ok u, channel) = (finished (ok (published sent)), record c { channel = channel })
then_sent c (err e, channel) = (finished (err e), record c { channel = channel })

-- A publish with an identifier: register the waiter, send, wait.
abbrev pub publish_with_id : Wait → Sender → PublishRequest → Connection → Call × Connection
publish_with_id w tx req c =
    let (id, channel) = allocate c.channel in
    then_await w id c
      (send_publish (request_packet req (some id)) (register id (slot w tx) channel))

abbrev pub start_publish_at : QoS → Sender → PublishRequest → Connection → Call × Connection
start_publish_at at_most_once tx req c =
    then_sent c (send_publish (request_packet req none) c.channel)
start_publish_at at_least_once tx req c = publish_with_id puback tx req c
start_publish_at exactly_once tx req c = publish_with_id pubrec tx req c

abbrev pub start_publish : Sender → PublishRequest → Connection → Call × Connection
start_publish tx req c = start_publish_at req.qos tx req c

abbrev pub to_subscription : TopicFilter → TopicSubscription
to_subscription tf = record { topic = tf.filter; qos = tf.qos }

abbrev pub start_subscribe : Sender → List TopicFilter → Connection → Call × Connection
start_subscribe tx filters c =
    let (id, channel) = allocate c.channel in
    then_await suback id c (
      send_packet
        (Packet.subscribe (record { packet_id = id; subscriptions = map to_subscription filters }))
        (register id (AckSlot.suback tx) channel))

abbrev pub start_unsubscribe : Sender → List Str → Connection → Call × Connection
start_unsubscribe tx topics c =
    let (id, channel) = allocate c.channel in
    then_await unsuback id c (
      send_packet (Packet.unsubscribe (record { packet_id = id; topics = topics }))
        (register id (AckSlot.unsuback tx) channel))

-- `send_impl`, with the oneshot channel that the request makes.
unfoldable pub start : Sender → MqttRequest → Connection → Call × Connection
unfolding allocate_packet_id send_packet send_publish
start tx (Request.publish req) c = start_publish tx req c
start tx (Request.subscribe filters) c = start_subscribe tx filters c
start tx (Request.unsubscribe topics) c = start_unsubscribe tx topics c

-- The two `map_err` after a wait; a wait that elapsed takes its slot back.
abbrev pub end_wait : {A : Type 0} → PacketId → Outcome A → Connection → Result A × Connection
end_wait id (arrived value) c = (ok value, c)
end_wait id dropped c = (err channel_closed, c)
end_wait id elapsed c =
    (err (Error.timeout Error.ack), record c { channel = drop_ack id c.channel })

abbrev pub finish_with :
    {A : Type 0} → (A → MqttResponse) → Result A × Connection → Call × Connection
finish_with f (ok value, c) = (finished (ok (f value)), c)
finish_with f (err e, c) = (finished (err e), c)

-- The second phase of QoS 2: a new oneshot channel under the same identifier.
abbrev pub await_pubcomp : PacketId → Sender → Result PacketId × Connection → Call × Connection
await_pubcomp id tx (ok value, c) =
    (awaiting pubcomp id, record c { channel = register id (AckSlot.pubcomp tx) c.channel })
await_pubcomp id tx (err e, c) = (finished (err e), c)

-- From the end of a wait on; `tx` is the oneshot channel of the second phase of QoS 2.
unfoldable pub resume :
    (w : Wait) → PacketId → Sender → Outcome (Value w) → Connection → Call × Connection
resume puback id tx o c = finish_with (λ acked. published (acknowledged acked)) (end_wait id o c)
resume pubrec id tx o c = await_pubcomp id tx (end_wait id o c)
resume pubcomp id tx o c = finish_with (λ comp_id. published (completed comp_id)) (end_wait id o c)
resume suback id tx o c = finish_with subscribed (end_wait id o c)
resume unsuback id tx o c = finish_with (λ u. unsubscribed) (end_wait id o c)
