-- ===== src/Codec/RoundTrip/Wire.antt =====
-- Which packets the wire can represent: the values fit their Rust types, the lengths fit their length
-- fields, and what a version does not put on the wire is empty.
use jack_hotaru_mqtt.Base.{ℕ, ◌<◌, ◌≡◌, ◌≢◌, List, [], Option, none, some, All}
use jack_hotaru_mqtt.Codes.QoS.{QoS, at_most_once, at_least_once, exactly_once}
use jack_hotaru_mqtt.Codes.ProtocolVersion.{ProtocolVersion, v311, v5}
use jack_hotaru_mqtt.Wire.Fields.RoundTrip.{IsText, IsBlob}
use jack_hotaru_mqtt.Properties.{Properties, default}
use jack_hotaru_mqtt.Properties.RoundTrip.Field.{Fits}
use jack_hotaru_mqtt.Properties.RoundTrip.Table.{IsTyped}
use jack_hotaru_mqtt.Packet.{
  Packet, PublishPacket, WillPacket, ConnectPacket, connect, connack, publish, puback, pubrec,
  pubrel, pubcomp, subscribe, suback, unsubscribe, unsuback, pingreq, pingresp, disconnect,
}

abbrev pub IsId : ℕ → Type 0
IsId id = id < 65536

abbrev pub HasProperties : ProtocolVersion → Properties → Type 0
HasProperties v311 p = p ≡ default
HasProperties v5 p = IsTyped p

-- A PUBLISH has an identifier exactly if its QoS is above 0.
abbrev pub HasId : QoS → Option ℕ → Type 0
HasId at_most_once id = id ≡ none
HasId at_least_once none = ⊥
HasId at_least_once (some id) = IsId id
HasId exactly_once none = ⊥
HasId exactly_once (some id) = IsId id

abbrev pub IsWillWire : ProtocolVersion → WillPacket → Type 0
IsWillWire version will =
    HasProperties version will.properties × IsText will.topic × IsBlob will.payload

abbrev pub IsConnectWire : ConnectPacket → Type 0
IsConnectWire c =
    HasProperties c.version c.properties
    × IsText c.client_id
    × IsId c.keep_alive
    × Fits IsText c.username
    × Fits IsBlob c.password
    × Fits (IsWillWire c.version) c.will

abbrev pub IsPublishWire : ProtocolVersion → PublishPacket → Type 0
IsPublishWire version p =
    HasProperties version p.properties × IsText p.topic × HasId p.qos p.packet_id

abbrev pub HasReasons : ProtocolVersion → List ℕ → Type 0
HasReasons v311 codes = codes ≡ []
HasReasons v5 codes = Unit {0}

abbrev pub IsWire : ProtocolVersion → Packet → Type 0
IsWire version (connect c) = IsConnectWire c
IsWire version (connack c) = HasProperties version c.properties
IsWire version (publish p) = IsPublishWire version p
IsWire version (puback id) = IsId id
IsWire version (pubrec id) = IsId id
IsWire version (pubrel id) = IsId id
IsWire version (pubcomp id) = IsId id
IsWire version (subscribe s) =
    IsId s.packet_id × (s.subscriptions ≢ []) × All (λ sub. IsText sub.topic) s.subscriptions
IsWire version (suback s) = IsId s.packet_id × (s.return_codes ≢ [])
IsWire version (unsubscribe u) = IsId u.packet_id × (u.topics ≢ []) × All IsText u.topics
IsWire version (unsuback u) = IsId u.packet_id × HasReasons version u.reason_codes
IsWire version pingreq = Unit {0}
IsWire version pingresp = Unit {0}
IsWire version disconnect = Unit {0}
