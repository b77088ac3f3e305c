-- ===== src/Tests/Servers.antt =====
-- The server: a broker with connections on which packets arrive.
use jack_hotaru_mqtt.Base.{
  ℕ, ◌≡◌, ◌≢◌, refl, ◌↔◌, true, false, List, [], ◌∷◌, ◌++◌, Str, bytes, str_eq, split, none, some,
  Any, arith, get,
}
use jack_hotaru_mqtt.Error.{ok, protocol, connection_refused}
use jack_hotaru_mqtt.Codes.QoS.{at_least_once, exactly_once}
use jack_hotaru_mqtt.Codes.SubackCode.{granted}
use jack_hotaru_mqtt.Codes.ReturnCode.{not_authorized}
use jack_hotaru_mqtt.Properties.{default}
use jack_hotaru_mqtt.Packet
use jack_hotaru_mqtt.Packet.{PublishPacket, TopicSubscription, ConnectPacket}
use jack_hotaru_mqtt.Topic.{validate_subscribe_filter, check_filter}
use jack_hotaru_mqtt.Channel
use jack_hotaru_mqtt.Context.{Core}
use jack_hotaru_mqtt.Client
use jack_hotaru_mqtt.Client.{MqttClientConfig, build_connect}
use jack_hotaru_mqtt.Client.Connect.{IsFitting}
use jack_hotaru_mqtt.Codec.Encode.{encode_packet}
use jack_hotaru_mqtt.Wire.Length.{encode_remaining_length}
use jack_hotaru_mqtt.Wire.Fields.{write_arc_str}
use jack_hotaru_mqtt.Broker.Filter.{filter_matches, match_segments}
use jack_hotaru_mqtt.Broker.State.{Broker, SubscriberEntry, register_session}
use jack_hotaru_mqtt.Broker.State.Reach.{Queued}
use jack_hotaru_mqtt.Broker.State.Reachable.{Reachable, registered, start}
use jack_hotaru_mqtt.Protocol.Chain.{run_server_chain_then_decide_fanout}
use jack_hotaru_mqtt.Protocol.Chain.Agreement.{Passes, fanned_out_iff}
use jack_hotaru_mqtt.Protocol.Server.{Hub, channel_of, dispatch_server_inbound}
use jack_hotaru_mqtt.Protocol.Server.Accept.{
  Serving, running, failed, AuthResult, accept_all, reject, arrived, handle_server, connack_with,
}
use jack_hotaru_mqtt.Protocol.Server.Loop.{inbound, elapsed, serve_all}
use jack_hotaru_mqtt.Protocol.Server.Outcome.{Outcome, serve_all-Outcome}
use jack_hotaru_mqtt.Protocol.Server.Named.{IsNamed}
use jack_hotaru_mqtt.Protocol.Server.Handshake.{
  Arrives, IsEntered, present, handshake_accepted, handshake_refused,
}
use jack_hotaru_mqtt.Protocol.Server.EndToEnd.{subscribe_packet, subscribe-publish_served}
use jack_hotaru_mqtt.Protocol.Server.Once.{fanned, released_once}
use jack_hotaru_mqtt.Tests.Brokers.{fresh, alice, two_clients}

-- One endpoint for every topic, which leaves the packet as it is.
abbrev open_house : Core
open_house = record {
  Node = Unit {0};
  Params = Unit {0};
  Locals = Unit {0};
  no_params = tt;
  no_locals = tt;
  find = λ topic segments. tt ∷ [];
  run = λ node ctx. ok ctx;
  match_seg_name_with_index = λ node name. none;
}

abbrev letter : PublishPacket
letter = record {
  properties = default;
  topic = bytes "s/1";
  payload = 7 ∷ [];
  dup = false;
  qos = at_least_once;
  retain = false;
  packet_id = some 4;
}

abbrev registered_letter : PublishPacket
registered_letter = record letter { qos = exactly_once }

abbrev hub : Hub
hub = record { broker = two_clients; delivered = [] }

abbrev wish : TopicSubscription
wish = record { topic = bytes "s/#"; qos = at_least_once }

fanned_out_iff_example :
    (run_server_chain_then_decide_fanout open_house fresh letter ≡ some letter)
    ↔ Passes open_house fresh (tt ∷ []) letter letter
fanned_out_iff_example = fanned_out_iff open_house fresh letter letter

subscribe-publish_served_example :
    let subscribed =
      (dispatch_server_inbound open_house 1 (bytes "alice") (subscribe_packet 9 wish) hub).1 in
    let after =
      (dispatch_server_inbound open_house 2 (bytes "bob") (Packet.publish letter) subscribed).1 in
    ((channel_of 1 subscribed).queue
      ≡ Channel.packet
          (Packet.suback (record { packet_id = 9; return_codes = granted at_least_once ∷ [] }))
        ∷ [])
    × Any (λ cmd. cmd ≡ Channel.packet (Packet.puback 4)) (channel_of 2 after).queue
    × Queued letter at_least_once (channel_of 1 after)
unfolding validate_subscribe_filter check_filter filter_matches match_segments split
    run_server_chain_then_decide_fanout
subscribe-publish_served_example =
    subscribe-publish_served open_house 1 2 (bytes "alice") (bytes "bob") hub alice 9 4 wish letter
      letter refl refl (λ e. ground arith) (λ e. cc) refl refl refl refl refl (λ channel. refl) refl

released_once_example :
    let h1 =
      (dispatch_server_inbound open_house 1
        (bytes "alice")
        (Packet.publish registered_letter)
        hub).1 in
    let h2 = (dispatch_server_inbound open_house 1 (bytes "alice") (Packet.pubrel 4) h1).1 in
    let h3 = (dispatch_server_inbound open_house 1 (bytes "alice") (Packet.pubrel 4) h2).1 in
    let release = fanned open_house 1 (bytes "alice") 4 registered_letter h1 in
    ((other : ℕ)
      → other ≢ 1
      → (channel_of other h1 ≡ channel_of other hub)
        × (channel_of other h2 ≡ channel_of other release)
        × (channel_of other h3 ≡ channel_of other release))
    × ((channel_of 1 h1).queue ≡ Channel.packet (Packet.pubrec 4) ∷ [])
    × ((channel_of 1 h2).queue
        ≡ (channel_of 1 release).queue ++ (Channel.packet (Packet.pubcomp 4) ∷ []))
    × ((channel_of 1 h3).queue
        ≡ (channel_of 1 h2).queue ++ (Channel.packet (Packet.pubcomp 4) ∷ []))
released_once_example =
    released_once open_house 1 (bytes "alice") 4 registered_letter hub refl refl refl

abbrev carol : SubscriberEntry
carol = record { channel = 3; filters = []; will = none; clean_session = false }

-- Carol has just registered.
abbrev one_guest : Broker
one_guest =
    (register_session (bytes "carol") 3 none false
      (record { sessions = []; subscriptions = record { subs = [] }; channels = λ id. fresh })).1

-- A PINGREQ, and then the beginning of something else, is on the wire.
abbrev serving : Serving
serving = record {
  reader = 0xc0 ∷ 0x00 ∷ 0x30 ∷ [];
  phase = running (bytes "carol");
  hub = record { broker = one_guest; delivered = [] };
}

serve_all-Outcome_example :
    let after = serve_all open_house 3 (inbound ∷ elapsed ∷ []) serving in
    Reachable after.hub.broker × Outcome 3 (bytes "carol") after.phase after.hub
unfolding register_session
serve_all-Outcome_example =
    serve_all-Outcome open_house 3 (bytes "carol") (inbound ∷ elapsed ∷ []) serving
      (registered (bytes "carol") 3 none false (start (λ id. fresh))) (refl, (carol, refl))

abbrev phone : MqttClientConfig (Unit {0})
phone = Client.new (bytes "alice")

abbrev connect_wire : List ℕ
connect_wire = 0x10 ∷ 17 ∷ 0 ∷ 4 ∷ bytes "MQTT" ++ (4 ∷ 0x02 ∷ 0 ∷ 60 ∷ 0 ∷ 5 ∷ bytes "alice")

abbrev at_door : Hub
at_door = record {
  broker = record two_clients {
    channels = λ id. Channel.new (connect_wire ++ (0xc0 ∷ 0x00 ∷ [])) 1 Channel.server;
  };
  delivered = [];
}

phone_fits : IsFitting phone
unfolding jack_hotaru_mqtt.Base.is_utf8
phone_fits = record {
  client_id = (refl, ground arith);
  keep_alive = ground arith;
  credentials = tt;
  will = tt;
}

arrives :
    (auth : ConnectPacket → AuthResult)
    → Arrives phone auth 1 at_door connect_wire (0xc0 ∷ 0x00 ∷ [])
unfolding encode_packet build_connect encode_remaining_length write_arc_str
arrives auth = record {
  fits = phone_fits;
  encoded = refl;
  short = ground arith;
  reads = refl;
  listens = refl;
}

handshake_accepted_example :
    (id : Str) × IsNamed 1 (bytes "alice") id
    × IsEntered 1 id none true 60 4
        (0xc0 ∷ 0x00 ∷ [])
        []
        (present id true two_clients)
        (handle_server 1 accept_all arrived at_door)
handshake_accepted_example =
    handshake_accepted phone accept_all 1 at_door connect_wire (0xc0 ∷ 0x00 ∷ [])
      (arrives accept_all) refl refl (omega arith)

handshake_refused_example :
    let s = handle_server 1 (λ c. reject not_authorized) arrived at_door in
    (s.phase ≡ failed (protocol (connection_refused not_authorized)))
    × ((channel_of 1 s.hub).queue ≡ Channel.packet (connack_with false not_authorized) ∷ [])
    × (s.hub.broker.sessions ≡ two_clients.sessions)
    × (s.hub.broker.subscriptions ≡ two_clients.subscriptions)
    × ((channel_of 1 s.hub).is_open ≡ false)
handshake_refused_example =
    handshake_refused phone (λ c. reject not_authorized) 1 at_door connect_wire (0xc0 ∷ 0x00 ∷ [])
      (arrives (λ c. reject not_authorized)) refl
