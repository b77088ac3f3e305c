-- ===== src/Protocol/Server/Loop.antt =====
-- src/protocol.rs: the loop of `handle_server`, one event at a time, and its end. `handle` closes the
-- channel after either.
use jack_hotaru_mqtt.Base.{ℕ, Bool, true, false, List, [], ◌∷◌, Str, if◌then◌else◌}
use jack_hotaru_mqtt.Error.{Result, ok, err, io}
use jack_hotaru_mqtt.Packet.{Packet}
use jack_hotaru_mqtt.Codec.Stream.{read_packet}
use jack_hotaru_mqtt.Channel.{protocol_version, close}
use jack_hotaru_mqtt.Context.{Core}
use jack_hotaru_mqtt.Broker.State.{unregister_session}
use jack_hotaru_mqtt.Protocol.Server.{Hub, channel_of, dispatch_server_inbound}
use jack_hotaru_mqtt.Protocol.Server.Accept.{Phase, running, left, failed, Serving, closed, fail}

-- What `select!` comes back with: the next packet is complete, or the wire is closed; the keep-alive
-- time elapsed; the channel was closed.
pub data Event : Type 0 where
  inbound elapsed notified : Event

module _ (core : Core) (conn : ℕ) where
  abbrev pub leave : List ℕ → Str → Bool → Hub → Serving
  leave reader client_id graceful hub = record {
    reader = reader;
    phase = left;
    hub = closed conn (record hub { broker = unregister_session client_id graceful hub.broker });
  }

  abbrev pub after_dispatch : List ℕ → Str → Result (Unit {0}) × Hub → Serving
  after_dispatch reader client_id (ok u, hub) = record {
    reader = reader;
    phase = running client_id;
    hub = hub;
  }
  after_dispatch reader client_id (err e, hub) = fail conn reader e hub

  abbrev pub on_packet : List ℕ → Str → Packet → Hub → Serving
  on_packet reader client_id Packet.disconnect hub = leave reader client_id true hub
  on_packet reader client_id packet hub =
      after_dispatch reader client_id (dispatch_server_inbound core conn client_id packet hub)

  abbrev pub on_inbound : List ℕ → Str → Result (Packet × List ℕ) → Hub → Serving
  on_inbound before client_id (ok (packet, reader)) hub = on_packet reader client_id packet hub
  on_inbound before client_id (err io) hub = leave before client_id false hub
  on_inbound before client_id (err e) hub = fail conn before e hub

  abbrev pub on_event : Event → List ℕ → Str → Hub → Serving
  on_event inbound reader client_id hub =
      on_inbound reader client_id (read_packet reader (protocol_version (channel_of conn hub))) hub
  on_event elapsed reader client_id hub = leave reader client_id false hub
  on_event notified reader client_id hub = leave reader client_id false hub

  abbrev pub serve_at : Phase → Event → Serving → Serving
  serve_at (running client_id) event s =
      if (channel_of conn s.hub).is_open
      then on_event event s.reader client_id s.hub
      else leave s.reader client_id false s.hub
  serve_at left event s = s
  serve_at (failed e) event s = s

  -- One turn of the loop; once `handle_server` has returned there is none.
  unfoldable pub serve : Event → Serving → Serving
  unfolding dispatch_server_inbound protocol_version unregister_session close
  serve event s = serve_at s.phase event s

  unfoldable pub serve_all : List Event → Serving → Serving
  serve_all [] s = s
  serve_all (event ∷ events) s = serve_all events (serve event s)
