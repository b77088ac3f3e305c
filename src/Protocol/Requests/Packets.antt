-- ===== src/Protocol/Requests/Packets.antt =====
-- The packets that a client's requests stand for.
use jack_hotaru_mqtt.Base.{◌≡◌, refl, ap, false, List, [], ◌∷◌, some, map}
use jack_hotaru_mqtt.Properties
use jack_hotaru_mqtt.Request.{PacketId, PublishRequest, TopicFilter}
use jack_hotaru_mqtt.Packet.{PublishPacket, TopicSubscription}
use jack_hotaru_mqtt.Protocol.Requests.{to_subscription}

-- The packet that a request stands for, under an identifier.
abbrev pub sent_as : PacketId → PublishRequest → PublishPacket
sent_as id req = record {
  properties = Properties.default;
  topic = req.topic;
  payload = req.payload;
  dup = false;
  qos = req.qos;
  retain = req.retain;
  packet_id = some id;
}

-- The entries of a SUBSCRIBE for some filters.
abbrev pub entries : List TopicFilter → List TopicSubscription
entries [] = []
entries (tf ∷ tfs) = (record { topic = tf.filter; qos = tf.qos }) ∷ entries tfs

pub map-entries : (filters : List TopicFilter) → map to_subscription filters ≡ entries filters
map-entries [] = refl
map-entries (tf ∷ tfs) = ap (λ t. to_subscription tf ∷ t) (map-entries tfs)
