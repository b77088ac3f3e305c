-- ===== src/Protocol/Server/Handshake.antt =====
-- From the CONNECT that a configured client sends to the CONNACK that answers it.
use jack_hotaru_mqtt.Base.{
  ==_refl, ℕ, ◌≡◌, refl, ◌∙◌, ap, ◌<◌, ◌^◌, Bool, true, false, not, ◌&&◌, List, [], ◌∷◌, ◌++◌,
  length, Str, str_eq, str_eq_refl, Option, none, some, get, arith,
}
use jack_hotaru_mqtt.Error.{ok, protocol, connection_refused}
use jack_hotaru_mqtt.Codes.ReturnCode.{ConnackReturnCode}
use jack_hotaru_mqtt.Codes.ProtocolVersion
use jack_hotaru_mqtt.Properties
use jack_hotaru_mqtt.Request.{WillMessage}
use jack_hotaru_mqtt.Packet.{Packet, ConnectPacket}
use jack_hotaru_mqtt.Codec.Encode.{encode_packet}
use jack_hotaru_mqtt.Session.{set_bind}
use jack_hotaru_mqtt.Channel
use jack_hotaru_mqtt.Channel.{
  MqttChannel, WriteCmd, set_protocol_version, protocol_version, send_packet, close,
}
use jack_hotaru_mqtt.Client
use jack_hotaru_mqtt.Client.{MqttClientConfig, build_connect}
use jack_hotaru_mqtt.Client.Connect.{IsFitting, read-connect}
use jack_hotaru_mqtt.Broker.State.{Broker, register_session, is_some}
use jack_hotaru_mqtt.Protocol.Server.{Hub, channel_of, with_channel}
use jack_hotaru_mqtt.Protocol.Server.Named.{IsNamed, or_auto-IsNamed}
use jack_hotaru_mqtt.Protocol.Server.Accept.{
  running, failed, Serving, AuthResult, arrived, or_auto, will_of, connack_with, on_reader, on_read,
  on_auth, handle_server,
}

same_will : (w : Option WillMessage) → will_of (Client.will_of w) ≡ w
same_will none = refl
same_will (some w) = refl

module _ {H : Type 0} (config : MqttClientConfig H) (authenticate : ConnectPacket → AuthResult)
    (conn : ℕ) (hub : Hub) (wire rest : List ℕ) where
  -- The stream of the connection starts with the client's CONNECT.
  pub record Arrives : Type 0 where
    pub fits : IsFitting config
    pub encoded :
        encode_packet (Packet.connect (build_connect config)) config.protocol_version ≡ ok wire
    pub short : length wire < 2 ^ 28
    pub reads : (channel_of conn hub).reader ≡ some (wire ++ rest)
    pub listens : (channel_of conn hub).listening ≡ true

  -- The connection before the authentication: the reader is taken, the version is the client's.
  taken : Hub
  taken = with_channel conn (record (channel_of conn hub) { reader = none }) hub

  before_auth : Hub
  before_auth =
      with_channel conn (set_protocol_version config.protocol_version (channel_of conn taken)) taken

  reaches_auth :
      Arrives
      → handle_server conn authenticate arrived hub
        ≡ on_auth conn rest (build_connect config) (authenticate (build_connect config)) before_auth
  unfolding handle_server before_auth build_connect taken
  reaches_auth a =
      ap
        (λ o.
          on_reader conn authenticate arrived (o, record (channel_of conn hub) { reader = none })
            hub)
        a.reads
      ∙ ap (λ r. on_read conn authenticate (wire ++ rest) r taken)
          (read-connect config ProtocolVersion.default wire rest a.fits a.encoded a.short)

-- A client that was let in: it runs on the rest of the stream; its session has the connection, the will
-- and the flag that it asked for, and no filter yet; it was answered with a CONNACK that accepts.
pub record IsEntered (conn : ℕ) (client_id : Str) (will : Option WillMessage) (clean_session : Bool)
    (keep_alive level : ℕ) (rest : List ℕ) (queue : List WriteCmd) (session_present : Bool)
    (s : Serving) : Type 0 where
  pub runs : s.phase ≡ running client_id
  pub reader : s.reader ≡ rest
  pub speaks : (channel_of conn s.hub).version ≡ level
  pub session :
      get str_eq client_id s.hub.broker.sessions
      ≡ some (record { channel = conn; filters = []; will = will; clean_session = clean_session })
  pub bind :
      (channel_of conn s.hub).session.bind
      ≡ some (record { client_id = client_id; keep_alive = keep_alive })
  pub answered :
      (channel_of conn s.hub).queue
      ≡ queue
        ++ (Channel.packet (
              Packet.connack (record {
                properties = Properties.default;
                session_present = session_present;
                return_code = ConnackReturnCode.accepted;
              }))
            ∷ [])

-- The session-present flag: a former session that is to be resumed.
abbrev pub present : Str → Bool → Broker → Bool
present client_id clean_session broker =
    not clean_session && is_some (get str_eq client_id broker.sessions)

with_will :
    (conn : ℕ) (client_id : Str) (w w' : Option WillMessage) (clean_session : Bool)
    (keep_alive level : ℕ) (rest : List ℕ) (queue : List WriteCmd) (p : Bool) (s : Serving)
    → w ≡ w'
    → IsEntered conn client_id w clean_session keep_alive level rest queue p s
    → IsEntered conn client_id w' clean_session keep_alive level rest queue p s
with_will conn client_id w w' clean_session keep_alive level rest queue p s e entered =
    rw (← e) entered

module _ (conn : ℕ) (rest : List ℕ) (connect : ConnectPacket) (auth : AuthResult)
    (before : Hub) where
  lets_in :
      (channel : MqttChannel)
      → channel_of conn before ≡ channel
      → auth.accepted ≡ true
      → channel.listening ≡ true
      → channel.session.bind ≡ none
      → IsEntered conn
          (or_auto channel.connection_id connect.client_id)
          (will_of connect.will)
          connect.clean_session
          connect.keep_alive
          channel.version
          rest
          channel.queue
          (present
            (or_auto channel.connection_id connect.client_id)
            connect.clean_session
            before.broker)
          (on_auth conn rest connect auth before)
  unfolding handle_server register_session set_bind send_packet
  lets_in channel e accepts l f =
      let listens : (channel_of conn before).listening ≡ true = rw e l in
      let free : (channel_of conn before).session.bind ≡ none = rw e f in
      let id = or_auto (channel_of conn before).connection_id connect.client_id in
      rw (← e) (record {
        runs = rw (accepts, ==_refl conn, free, listens) refl;
        reader = rw (accepts, ==_refl conn, free, listens) refl;
        speaks = ground (arith, ==_refl conn, listens);
        session = rw (accepts, ==_refl conn, free, listens, str_eq_refl id) refl;
        bind = ground (arith, ==_refl conn, free, listens);
        answered = ground (arith, ==_refl conn, listens);
      })

  -- A client that is refused: it is told the code, and nothing is registered.
  refuses :
      auth.accepted ≡ false
      → (channel_of conn before).listening ≡ true
      → let s = on_auth conn rest connect auth before in
        (s.phase ≡ failed (protocol (connection_refused auth.return_code)))
        × ((channel_of conn s.hub).queue
            ≡ (channel_of conn before).queue
              ++ (Channel.packet (connack_with false auth.return_code) ∷ []))
        × (s.hub.broker.sessions ≡ before.broker.sessions)
        × (s.hub.broker.subscriptions ≡ before.broker.subscriptions)
        × ((channel_of conn s.hub).is_open ≡ false)
  unfolding handle_server send_packet close
  refuses rejects listens = (
    rw rejects refl,
    ground (arith, ==_refl conn, listens),
    rw rejects refl,
    rw rejects refl,
    ground (arith, ==_refl conn, listens),
  )

module _ {H : Type 0} (config : MqttClientConfig H) (authenticate : ConnectPacket → AuthResult)
    (conn : ℕ) (hub : Hub) (wire rest : List ℕ) where
  abbrev ready : Hub
  ready = before_auth config authenticate conn hub wire rest

  auth_channel : channel_of conn ready ≡ record (channel_of conn hub) {
    reader = none;
    version = ProtocolVersion.level config.protocol_version;
  }
  unfolding before_auth taken set_protocol_version
  auth_channel = ground (arith, ==_refl conn)

  -- The server reads the CONNECT of a configured client off its stream. A client that the authenticator
  -- accepts, on a connection without a binding, is then let in: under its own id or, if that is empty,
  -- and whether or not it asked for a clean session, under `hotaru-auto-` with the decimal number of its
  -- connection, it has a session with the will that it configured, its version is spoken, and it is
  -- answered with a CONNACK that accepts, and that says whether a former session under that id is
  -- resumed.
  pub handshake_accepted :
      Arrives config authenticate conn hub wire rest
      → (authenticate (build_connect config)).accepted ≡ true
      → (channel_of conn hub).session.bind ≡ none
      → (channel_of conn hub).connection_id < 2 ^ 64
      → (id : Str) × IsNamed (channel_of conn hub).connection_id config.client_id id
        × IsEntered conn id config.will config.clean_session config.keep_alive_secs
            (ProtocolVersion.level config.protocol_version)
            rest
            (channel_of conn hub).queue
            (present id config.clean_session hub.broker)
            (handle_server conn authenticate arrived hub)
  unfolding build_connect before_auth taken
  handshake_accepted a accepts free counted = (
    or_auto (channel_of conn hub).connection_id config.client_id,
    or_auto-IsNamed (channel_of conn hub).connection_id config.client_id counted,
    rw (reaches_auth config authenticate conn hub wire rest a) (
        with_will conn _ _ config.will _ _ _ _ _ _ _ (same_will config.will) (
          lets_in conn rest (build_connect config) (authenticate (build_connect config)) ready _
            auth_channel accepts a.listens free)),
  )

  -- A client that the authenticator does not accept is told its code in a CONNACK; the connection then
  -- fails and is closed, and the broker has the sessions and subscriptions of before.
  pub handshake_refused :
      Arrives config authenticate conn hub wire rest
      → (authenticate (build_connect config)).accepted ≡ false
      → let code = (authenticate (build_connect config)).return_code in
        let s = handle_server conn authenticate arrived hub in
        (s.phase ≡ failed (protocol (connection_refused code)))
        × ((channel_of conn s.hub).queue
            ≡ (channel_of conn hub).queue
              ++ (Channel.packet (
                    Packet.connack (record {
                      properties = Properties.default;
                      session_present = false;
                      return_code = code;
                    }))
                  ∷ []))
        × (s.hub.broker.sessions ≡ hub.broker.sessions)
        × (s.hub.broker.subscriptions ≡ hub.broker.subscriptions)
        × ((channel_of conn s.hub).is_open ≡ false)
  unfolding before_auth taken
  handshake_refused a rejects =
      let auth = authenticate (build_connect config) in
      let (phase, queue, sessions, subscriptions, shut) =
        refuses conn rest (build_connect config) auth ready rejects
          (ap (λ (c : MqttChannel). c.listening) auth_channel ∙ a.listens) in
      rw (reaches_auth config authenticate conn hub wire rest a) (
        phase,
        queue
            ∙ ap
                (λ (c : MqttChannel).
                  c.queue ++ (Channel.packet (connack_with false auth.return_code) ∷ []))
                auth_channel,
        sessions,
        subscriptions,
        shut,
      )
