-- ===== src/Tests/Clients.antt =====
-- A client: its requests and its writer.
use jack_hotaru_mqtt.Base.{
  ℕ, ◌≡◌, refl, false, List, [], ◌∷◌, ◌++◌, bytes, none, some, replicate, arith,
}
use jack_hotaru_mqtt.Error
use jack_hotaru_mqtt.Error.{MqttError, ok, err, channel_closed, timeout, codec, invalid_packet_type}
use jack_hotaru_mqtt.Codes.QoS.{at_least_once, exactly_once}
use jack_hotaru_mqtt.Codes.SubackCode.{granted}
use jack_hotaru_mqtt.Codes.ProtocolVersion.{v311}
use jack_hotaru_mqtt.Request
use jack_hotaru_mqtt.Request.{
  PacketId, PublishRequest, TopicFilter, published, subscribed, acknowledged, completed,
}
use jack_hotaru_mqtt.Packet.{Packet}
use jack_hotaru_mqtt.Session.{AckSlot}
use jack_hotaru_mqtt.Codec.Encode.{encode_packet}
use jack_hotaru_mqtt.Channel
use jack_hotaru_mqtt.Channel.{MqttChannel, protocol_version}
use jack_hotaru_mqtt.Channel.Writer.{WriterState, receive, turns}
use jack_hotaru_mqtt.Channel.Writer.Delivery.{read_many, queue_reaches_peer}
use jack_hotaru_mqtt.Protocol.{Connection, dispatch_client_inbound, pending, packet_id, codes}
use jack_hotaru_mqtt.Protocol.Requests.{
  awaiting, finished, puback, pubrec, pubcomp, suback, arrived, elapsed, start, resume,
}
use jack_hotaru_mqtt.Protocol.Requests.Packets.{sent_as, entries}
use jack_hotaru_mqtt.Protocol.Requests.Exchange.{
  next_id, publish-acknowledged, publish_completed, pubcomp_too_early, subscribe_answered,
}

abbrev pub fresh : MqttChannel
fresh = Channel.new [] 1 Channel.client

abbrev pub quiet : Connection
quiet = record { channel = fresh; delivered = []; dispatched = [] }

abbrev pub note : PublishRequest
note = record { topic = bytes "n"; payload = 1 ∷ []; qos = at_least_once; retain = false }

abbrev order : PublishRequest
order = record note { qos = exactly_once }

abbrev pub filters : List TopicFilter
filters = (record { filter = bytes "n/+"; qos = at_least_once }) ∷ []

publish-acknowledged_example :
    let (call, c1) = start 7 (Request.publish note) quiet in
    let c2 = (dispatch_client_inbound (Packet.puback (next_id quiet)) c1).1 in
    (call ≡ awaiting puback (next_id quiet))
    × (c1.channel.queue ≡ Channel.publish (sent_as (next_id quiet) note) ∷ [])
    × (c2.delivered ≡ (7, packet_id (next_id quiet)) ∷ [])
    × (pending (next_id quiet) c2 ≡ none)
    × ((resume puback (next_id quiet) 8 (arrived (next_id quiet)) c2).0
        ≡ finished (ok (published (acknowledged (next_id quiet)))))
publish-acknowledged_example = publish-acknowledged 7 8 note quiet refl refl

publish_completed_example :
    let id = next_id quiet in
    let (call, c1) = start 7 (Request.publish order) quiet in
    let c2 = (dispatch_client_inbound (Packet.pubrec id) c1).1 in
    let (call', c3) = resume pubrec id 8 (arrived id) c2 in
    let c4 = (dispatch_client_inbound (Packet.pubcomp id) c3).1 in
    (call ≡ awaiting pubrec id)
    × (call' ≡ awaiting pubcomp id)
    × (c4.channel.queue
        ≡ Channel.publish (sent_as id order) ∷ Channel.packet (Packet.pubrel id) ∷ [])
    × (c4.delivered ≡ (7, packet_id id) ∷ (8, packet_id id) ∷ [])
    × (pending id c4 ≡ none)
    × ((resume pubcomp id 8 (arrived id) c4).0 ≡ finished (ok (published (completed id))))
publish_completed_example = publish_completed 7 8 order quiet refl refl

pubcomp_too_early_example :
    let id = next_id quiet in
    let c1 = (start 7 (Request.publish order) quiet).1 in
    let c2 = (dispatch_client_inbound (Packet.pubrec id) c1).1 in
    let c3 = (dispatch_client_inbound (Packet.pubcomp id) c2).1 in
    let (call, c4) = resume pubrec id 8 (arrived id) c3 in
    (call ≡ awaiting pubcomp id)
    × (c4.delivered ≡ (7, packet_id id) ∷ [])
    × (pending id c4 ≡ some (AckSlot.pubcomp 8))
    × ((resume pubcomp id 8 elapsed c4).0 ≡ finished (err (timeout Error.ack)))
pubcomp_too_early_example = pubcomp_too_early 7 8 order quiet refl refl

subscribe_answered_example :
    let id = next_id quiet in
    let (call, c1) = start 7 (Request.subscribe filters) quiet in
    let c2 =
      (dispatch_client_inbound
        (Packet.suback (record { packet_id = id; return_codes = granted at_least_once ∷ [] }))
        c1).1 in
    (call ≡ awaiting suback id)
    × (c1.channel.queue
        ≡ Channel.packet
            (Packet.subscribe (record { packet_id = id; subscriptions = entries filters }))
          ∷ [])
    × (c2.delivered ≡ (7, codes (granted at_least_once ∷ [])) ∷ [])
    × (pending id c2 ≡ none)
    × ((resume suback id 8 (arrived (granted at_least_once ∷ [])) c2).0
        ≡ finished (ok (subscribed (granted at_least_once ∷ []))))
subscribe_answered_example = subscribe_answered 7 8 filters (granted at_least_once ∷ []) quiet refl

-- A PINGREQ and a flush are queued.
abbrev writer : WriterState
writer = record {
  channel = record fresh { queue = Channel.packet Packet.pingreq ∷ Channel.flush ∷ [] };
  written = 0xe0 ∷ 0x00 ∷ [];
}

queue_reaches_peer_example :
    let after = turns (replicate 2 receive) writer in
    (wire : List ℕ) × (after.channel.queue ≡ [])
    × (after.written ≡ (0xe0 ∷ 0x00 ∷ []) ++ wire)
    × ((more : List ℕ) → read_many 1 (wire ++ more) v311 ≡ ok (Packet.pingreq ∷ [], more))
unfolding protocol_version encode_packet
queue_reaches_peer_example =
    queue_reaches_peer writer refl ((tt, 0xc0 ∷ 0x00 ∷ [], refl, ground arith), (tt, tt))
