-- ===== src/Protocol/Requests/Silent.antt =====
-- A request sends nobody an acknowledgement.
use jack_hotaru_mqtt.Base.{◌≡◌, refl}
use jack_hotaru_mqtt.Codes.QoS.{QoS, at_most_once, at_least_once, exactly_once}
use jack_hotaru_mqtt.Error.{Result, ok, err}
use jack_hotaru_mqtt.Request
use jack_hotaru_mqtt.Request.{PacketId, PublishRequest, MqttRequest, TopicFilter}
use jack_hotaru_mqtt.Session.{Sender}
use jack_hotaru_mqtt.Channel.{MqttChannel, send_packet, send_publish}
use jack_hotaru_mqtt.Protocol.{Connection}
use jack_hotaru_mqtt.Protocol.Requests.{
  Wait, puback, pubrec, pubcomp, suback, unsuback, Value, Outcome, arrived, dropped, elapsed, start,
  resume, then_sent, then_await, start_publish_at,
}

module _ (tx : Sender) (c : Connection) where
  sent-delivered : (r : Result (Unit {0}) × MqttChannel) → (then_sent c r).1.delivered ≡ c.delivered
  sent-delivered (ok u, channel) = refl
  sent-delivered (err e, channel) = refl

  await-delivered :
      (w : Wait) (id : PacketId) (r : Result (Unit {0}) × MqttChannel)
      → (then_await w id c r).1.delivered ≡ c.delivered
  await-delivered w id (ok u, channel) = refl
  await-delivered w id (err e, channel) = refl

  publish-delivered :
      (q : QoS) (req : PublishRequest) → (start_publish_at q tx req c).1.delivered ≡ c.delivered
  publish-delivered at_most_once req = sent-delivered (send_publish _ c.channel)
  publish-delivered at_least_once req = await-delivered puback _ (send_publish _ _)
  publish-delivered exactly_once req = await-delivered pubrec _ (send_publish _ _)

  pub start-delivered : (req : MqttRequest) → (start tx req c).1.delivered ≡ c.delivered
  unfolding start
  start-delivered (Request.publish req) = publish-delivered req.qos req
  start-delivered (Request.subscribe filters) = await-delivered suback _ (send_packet _ _)
  start-delivered (Request.unsubscribe topics) = await-delivered unsuback _ (send_packet _ _)

  pub resume-delivered :
      (w : Wait) (id : PacketId) (o : Outcome (Value w))
      → (resume w id tx o c).1.delivered ≡ c.delivered
  unfolding resume
  resume-delivered puback id (arrived v) = refl
  resume-delivered puback id dropped = refl
  resume-delivered puback id elapsed = refl
  resume-delivered pubrec id (arrived v) = refl
  resume-delivered pubrec id dropped = refl
  resume-delivered pubrec id elapsed = refl
  resume-delivered pubcomp id (arrived v) = refl
  resume-delivered pubcomp id dropped = refl
  resume-delivered pubcomp id elapsed = refl
  resume-delivered suback id (arrived v) = refl
  resume-delivered suback id dropped = refl
  resume-delivered suback id elapsed = refl
  resume-delivered unsuback id (arrived v) = refl
  resume-delivered unsuback id dropped = refl
  resume-delivered unsuback id elapsed = refl
