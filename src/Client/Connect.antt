-- ===== src/Client/Connect.antt =====
-- The CONNECT of a client, as the server reads it.
use jack_hotaru_mqtt.Base.{arith, ℕ, ◌≡◌, refl, ◌<◌, ◌^◌, ◌++◌, length, List, Option, none, some}
use jack_hotaru_mqtt.Error.{ok}
use jack_hotaru_mqtt.Codes.ProtocolVersion.{ProtocolVersion, v311, v5}
use jack_hotaru_mqtt.Wire.Fields.RoundTrip.{IsText, IsBlob}
use jack_hotaru_mqtt.Properties.{default}
use jack_hotaru_mqtt.Properties.RoundTrip.Field.{Fits}
use jack_hotaru_mqtt.Request.{Credentials, WillMessage}
use jack_hotaru_mqtt.Packet.{Packet}
use jack_hotaru_mqtt.Codec.Encode.{encode_packet}
use jack_hotaru_mqtt.Codec.Stream.{read_packet}
use jack_hotaru_mqtt.Codec.RoundTrip.Wire.{IsId, HasProperties, IsConnectWire, IsWillWire}
use jack_hotaru_mqtt.Codec.RoundTrip.Packets.{decode-encode_packet}
use jack_hotaru_mqtt.Client.{MqttClientConfig, build_connect, username_of, password_of, will_of}

-- The texts and the data of a configuration fit their length fields, and its keep-alive time a u16.
pub record IsFitting {H : Type 0} (config : MqttClientConfig H) : Type 0 where
  pub client_id : IsText config.client_id
  pub keep_alive : IsId config.keep_alive_secs
  pub credentials :
      Fits (λ (c : Credentials). IsText c.username × IsBlob c.password) config.credentials
  pub will : Fits (λ (w : WillMessage). IsText w.topic × IsBlob w.payload) config.will

default_properties : (version : ProtocolVersion) → HasProperties version default
default_properties v311 = refl
default_properties v5 = omega arith

username_fits :
    (c : Option Credentials)
    → Fits (λ (c : Credentials). IsText c.username × IsBlob c.password) c
    → Fits IsText (username_of c)
username_fits none h = tt
username_fits (some c) (u, p) = u

password_fits :
    (c : Option Credentials)
    → Fits (λ (c : Credentials). IsText c.username × IsBlob c.password) c
    → Fits IsBlob (password_of c)
password_fits none h = tt
password_fits (some c) (u, p) = p

will_fits :
    (version : ProtocolVersion) (w : Option WillMessage)
    → Fits (λ (w : WillMessage). IsText w.topic × IsBlob w.payload) w
    → Fits (IsWillWire version) (will_of w)
will_fits version none h = tt
will_fits version (some w) (t, p) = (default_properties version, t, p)

module _ {H : Type 0} (config : MqttClientConfig H) where
  connect_fits : IsFitting config → IsConnectWire (build_connect config)
  unfolding build_connect
  connect_fits fits = (
    default_properties config.protocol_version,
    fits.client_id,
    fits.keep_alive,
    username_fits config.credentials fits.credentials,
    password_fits config.credentials fits.credentials,
    will_fits config.protocol_version config.will fits.will,
  )

  -- The CONNECT that a fitting configuration leads to is read back off its encoding, whatever follows on
  -- the stream, whichever version the reader takes and whichever version the client asks for.
  pub read-connect :
      (reads : ProtocolVersion) (wire rest : List ℕ)
      → IsFitting config
      → encode_packet (Packet.connect (build_connect config)) config.protocol_version ≡ ok wire
      → length wire < 2 ^ 28
      → read_packet (wire ++ rest) reads ≡ ok (Packet.connect (build_connect config), rest)
  unfolding encode_packet
  read-connect reads wire rest fits encoded short =
      (decode-encode_packet (Packet.connect (build_connect config)) reads wire rest
        (connect_fits fits) encoded short).1
