-- ===== src/Client.antt =====
-- src/client.rs and `build_connect` of src/protocol.rs: the configuration of a client and the CONNECT
-- that it leads to. `H` is the type of the program's own fallback handler; a duration is in seconds.
pub mod Connect
use jack_hotaru_mqtt.Base.{ℕ, Bool, true, List, [], ◌∷◌, ◌++◌, Str, Option, none, some}
use jack_hotaru_mqtt.Codes.QoS.{QoS}
use jack_hotaru_mqtt.Codes.ProtocolVersion
use jack_hotaru_mqtt.Codes.ProtocolVersion.{ProtocolVersion}
use jack_hotaru_mqtt.Properties
use jack_hotaru_mqtt.Request.{Credentials, TopicFilter, WillMessage}
use jack_hotaru_mqtt.Packet.{ConnectPacket, WillPacket}

pub record MqttClientConfig (H : Type 0) : Type 0 where
  pub client_id : Str
  pub protocol_version : ProtocolVersion
  pub clean_session : Bool
  pub keep_alive_secs : ℕ
  pub connect_timeout : ℕ
  pub credentials : Option Credentials
  pub initial_subscriptions : List TopicFilter
  pub will : Option WillMessage
  pub default_inbound : Option H

abbrev pub username_of : Option Credentials → Option Str
username_of none = none
username_of (some c) = some c.username

abbrev pub password_of : Option Credentials → Option (List ℕ)
password_of none = none
password_of (some c) = some c.password

abbrev pub will_of : Option WillMessage → Option WillPacket
will_of none = none
will_of (some w) = some (record {
  properties = Properties.default;
  topic = w.topic;
  payload = w.payload;
  qos = w.qos;
  retain = w.retain;
})

module _ {H : Type 0} where
  abbrev pub new : Str → MqttClientConfig H
  new client_id = record {
    client_id = client_id;
    protocol_version = ProtocolVersion.default;
    clean_session = true;
    keep_alive_secs = 60;
    connect_timeout = 30;
    credentials = none;
    initial_subscriptions = [];
    will = none;
    default_inbound = none;
  }

  abbrev pub protocol_version : ProtocolVersion → MqttClientConfig H → MqttClientConfig H
  protocol_version version config = record config { protocol_version = version }

  abbrev pub clean_session : Bool → MqttClientConfig H → MqttClientConfig H
  clean_session value config = record config { clean_session = value }

  abbrev pub keep_alive : ℕ → MqttClientConfig H → MqttClientConfig H
  keep_alive secs config = record config { keep_alive_secs = secs }

  abbrev pub connect_timeout : ℕ → MqttClientConfig H → MqttClientConfig H
  connect_timeout t config = record config { connect_timeout = t }

  abbrev pub with_credentials : Str → List ℕ → MqttClientConfig H → MqttClientConfig H
  with_credentials username password config = record config {
    credentials = some (record { username = username; password = password });
  }

  abbrev pub with_initial_subscribe : Str → QoS → MqttClientConfig H → MqttClientConfig H
  with_initial_subscribe filter qos config = record config {
    initial_subscriptions =
        config.initial_subscriptions ++ ((record { filter = filter; qos = qos }) ∷ []);
  }

  abbrev pub with_will : WillMessage → MqttClientConfig H → MqttClientConfig H
  with_will will config = record config { will = some will }

  abbrev pub with_default_inbound : H → MqttClientConfig H → MqttClientConfig H
  with_default_inbound handler config = record config { default_inbound = some handler }

  unfoldable pub build_connect : MqttClientConfig H → ConnectPacket
  build_connect config = record {
    version = config.protocol_version;
    properties = Properties.default;
    client_id = config.client_id;
    clean_session = config.clean_session;
    keep_alive = config.keep_alive_secs;
    username = username_of config.credentials;
    password = password_of config.credentials;
    will = will_of config.will;
  }
