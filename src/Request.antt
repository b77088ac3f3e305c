-- ===== src/Request.antt =====
-- src/request.rs: the request and response types and the shared constructs of CONNECT, PUBLISH and
-- SUBSCRIBE.
use jack_hotaru_mqtt.Base.{ℕ, Bool, List, Str, Option}
use jack_hotaru_mqtt.Codes.QoS.{QoS}
use jack_hotaru_mqtt.Codes.SubackCode.{SubackCode}
use jack_hotaru_mqtt.Properties.{Properties}

-- A u16.
abbrev pub PacketId : Type 0
PacketId = ℕ

pub record PublishRequest : Type 0 where
  pub topic : Str
  pub payload : List ℕ
  pub qos : QoS
  pub retain : Bool

pub record IncomingPublish : Type 0 where
  pub properties : Properties
  pub topic : Str
  pub payload : List ℕ
  pub qos : QoS
  pub retain : Bool
  pub dup : Bool
  pub packet_id : Option PacketId

pub data PublishAck : Type 0 where
  sent : PublishAck
  acknowledged completed : PacketId → PublishAck

pub record TopicFilter : Type 0 where
  pub filter : Str
  pub qos : QoS

pub data MqttRequest : Type 0 where
  publish : PublishRequest → MqttRequest
  subscribe : List TopicFilter → MqttRequest
  unsubscribe : List Str → MqttRequest

pub data MqttResponse : Type 0 where
  published : PublishAck → MqttResponse
  subscribed : List SubackCode → MqttResponse
  unsubscribed : MqttResponse

pub record Credentials : Type 0 where
  pub username : Str
  pub password : List ℕ

pub record WillMessage : Type 0 where
  pub topic : Str
  pub payload : List ℕ
  pub qos : QoS
  pub retain : Bool
