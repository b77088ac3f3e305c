-- ===== src/Packet.antt =====
-- src/packet.rs: the wire packets. `Arc` and `Box` are transparent.
use jack_hotaru_mqtt.Base.{ℕ, Bool, List, Str, Option}
use jack_hotaru_mqtt.Codes.QoS.{QoS}
use jack_hotaru_mqtt.Codes.SubackCode.{SubackCode}
use jack_hotaru_mqtt.Codes.ProtocolVersion.{ProtocolVersion}
use jack_hotaru_mqtt.Codes.ReturnCode.{ConnackReturnCode}
use jack_hotaru_mqtt.Properties.{Properties}
use jack_hotaru_mqtt.Request.{PacketId}

pub record PublishPacket : Type 0 where
  pub properties : Properties
  pub topic : Str
  pub payload : List ℕ
  pub dup : Bool
  pub qos : QoS
  pub retain : Bool
  pub packet_id : Option PacketId

pub record WillPacket : Type 0 where
  pub properties : Properties
  pub topic : Str
  pub payload : List ℕ
  pub qos : QoS
  pub retain : Bool

pub record ConnectPacket : Type 0 where
  pub version : ProtocolVersion
  pub properties : Properties
  pub client_id : Str
  pub clean_session : Bool
  pub keep_alive : ℕ
  pub username : Option Str
  pub password : Option (List ℕ)
  pub will : Option WillPacket

pub record ConnackPacket : Type 0 where
  pub properties : Properties
  pub session_present : Bool
  pub return_code : ConnackReturnCode

pub record TopicSubscription : Type 0 where
  pub topic : Str
  pub qos : QoS

pub record SubscribePacket : Type 0 where
  pub packet_id : PacketId
  pub subscriptions : List TopicSubscription

pub record SubackPacket : Type 0 where
  pub packet_id : PacketId
  pub return_codes : List SubackCode

pub record UnsubscribePacket : Type 0 where
  pub packet_id : PacketId
  pub topics : List Str

pub record UnsubackPacket : Type 0 where
  pub packet_id : PacketId
  pub reason_codes : List ℕ

pub data Packet : Type 0 where
  connect : ConnectPacket → Packet
  connack : ConnackPacket → Packet
  publish : PublishPacket → Packet
  puback pubrec pubrel pubcomp : PacketId → Packet
  subscribe : SubscribePacket → Packet
  suback : SubackPacket → Packet
  unsubscribe : UnsubscribePacket → Packet
  unsuback : UnsubackPacket → Packet
  pingreq pingresp disconnect : Packet
