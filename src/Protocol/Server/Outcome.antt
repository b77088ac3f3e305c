-- ===== src/Protocol/Server/Outcome.antt =====
-- Where one turn of the server's loop leads to.
use jack_hotaru_mqtt.Base.{
  ℕ, ◌≡◌, refl, ◌∙◌, Bool, true, false, Bool-cases, inl, inr, List, [], ◌∷◌, Str, str_eq,
  str_eq_refl, none, get, ==_iff, arith,
}
use jack_hotaru_mqtt.Error.{MqttError, Result, ok, err, io, Result-cases}
use jack_hotaru_mqtt.Error
use jack_hotaru_mqtt.Packet.{Packet}
use jack_hotaru_mqtt.Codec.Stream.{read_packet}
use jack_hotaru_mqtt.Channel.{protocol_version, close}
use jack_hotaru_mqtt.Context.{Core}
use jack_hotaru_mqtt.Broker.State.{unregister_session}
use jack_hotaru_mqtt.Broker.Tree.Laws.{sub_of}
use jack_hotaru_mqtt.Broker.State.Reachable.{Reachable, unregistered, unregister_ends}
use jack_hotaru_mqtt.Protocol.Server.{Hub, channel_of, dispatch_server_inbound}
use jack_hotaru_mqtt.Protocol.Server.Accept.{Phase, running, left, failed, Serving, closed, fail}
use jack_hotaru_mqtt.Protocol.Server.Loop.{
  Event, inbound, elapsed, notified, leave, after_dispatch, on_packet, on_inbound, on_event, serve,
  serve_at, serve_all,
}
use jack_hotaru_mqtt.Protocol.Server.Keeps.{HasSession, with_channel-Kept, dispatch-Kept}

-- Running: the same client, with its session. Left: the client has no session and no subscription, and
-- the channel is closed. Failed: the channel is closed, but the client still has its session.
abbrev pub Outcome : ℕ → Str → Phase → Hub → Type 0
Outcome conn client_id (running other) hub = (other ≡ client_id) × HasSession client_id hub.broker
Outcome conn client_id left hub =
    (get str_eq client_id hub.broker.sessions ≡ none)
    × ((f : Str) → sub_of f client_id hub.broker.subscriptions ≡ none)
    × ((channel_of conn hub).is_open ≡ false)
Outcome conn client_id (failed e) hub =
    HasSession client_id hub.broker × ((channel_of conn hub).is_open ≡ false)

-- A turn: reachable states stay so, and the outcome is as above.
record Turned (conn : ℕ) (client_id : Str) (s : Serving) : Type 0 where
  reaches : Reachable s.hub.broker
  outcome : Outcome conn client_id s.phase s.hub

is_closed : (conn : ℕ) (hub : Hub) → (channel_of conn (closed conn hub)).is_open ≡ false
unfolding close
is_closed conn hub = ground (arith, ==_iff conn conn)

module _ (core : Core) (conn : ℕ) (client_id : Str) where
  leave-Turned :
      (reader : List ℕ) (graceful : Bool) (hub : Hub)
      → Reachable hub.broker
      → Turned conn client_id (leave core conn reader client_id graceful hub)
  leave-Turned reader graceful hub r =
      let gone = λ (f : Str). unregister_ends client_id graceful hub.broker f client_id r in
      record {
        reaches =
            (with_channel-Kept client_id conn _
                (record hub { broker = unregister_session client_id graceful hub.broker })).reaches
              (unregistered client_id graceful r);
        outcome = (
          (gone []).0,
          (λ f. (gone f).1 ∙ rw (str_eq_refl client_id) refl),
          is_closed conn (record hub { broker = unregister_session client_id graceful hub.broker }),
        );
      }

  fail-Turned :
      (reader : List ℕ) (e : MqttError) (hub : Hub)
      → Reachable hub.broker
      → HasSession client_id hub.broker
      → Turned conn client_id (fail conn reader e hub)
  fail-Turned reader e hub r session = record {
    reaches = (with_channel-Kept client_id conn _ hub).reaches r;
    outcome = (session, is_closed conn hub);
  }

  dispatched-Turned :
      (reader : List ℕ) (r : Result (Unit {0})) (hub : Hub)
      → Reachable hub.broker
      → HasSession client_id hub.broker
      → Turned conn client_id (after_dispatch core conn reader client_id (r, hub))
  dispatched-Turned reader (ok u) hub r session = record { reaches = r; outcome = (refl, session) }
  dispatched-Turned reader (err e) hub r session = fail-Turned reader e hub r session

  handled-Turned :
      (reader : List ℕ) (packet : Packet) (hub : Hub)
      → Reachable hub.broker
      → HasSession client_id hub.broker
      → Turned conn client_id (
          after_dispatch core conn reader client_id
            (dispatch_server_inbound core conn client_id packet hub))
  handled-Turned reader packet hub r session =
      let kept = dispatch-Kept core conn client_id packet hub in
      dispatched-Turned reader _ _ (kept.reaches r) (kept.session session)

  packet-Turned :
      (reader : List ℕ) (packet : Packet) (hub : Hub)
      → Reachable hub.broker
      → HasSession client_id hub.broker
      → Turned conn client_id (on_packet core conn reader client_id packet hub)
  packet-Turned reader Packet.disconnect hub r session = leave-Turned reader true hub r
  packet-Turned reader (Packet.connect c) hub r session =
      handled-Turned reader (Packet.connect c) hub r session
  packet-Turned reader (Packet.connack c) hub r session =
      handled-Turned reader (Packet.connack c) hub r session
  packet-Turned reader (Packet.publish p) hub r session =
      handled-Turned reader (Packet.publish p) hub r session
  packet-Turned reader (Packet.puback id) hub r session =
      handled-Turned reader (Packet.puback id) hub r session
  packet-Turned reader (Packet.pubrec id) hub r session =
      handled-Turned reader (Packet.pubrec id) hub r session
  packet-Turned reader (Packet.pubrel id) hub r session =
      handled-Turned reader (Packet.pubrel id) hub r session
  packet-Turned reader (Packet.pubcomp id) hub r session =
      handled-Turned reader (Packet.pubcomp id) hub r session
  packet-Turned reader (Packet.subscribe s) hub r session =
      handled-Turned reader (Packet.subscribe s) hub r session
  packet-Turned reader (Packet.suback s) hub r session =
      handled-Turned reader (Packet.suback s) hub r session
  packet-Turned reader (Packet.unsubscribe u) hub r session =
      handled-Turned reader (Packet.unsubscribe u) hub r session
  packet-Turned reader (Packet.unsuback u) hub r session =
      handled-Turned reader (Packet.unsuback u) hub r session
  packet-Turned reader Packet.pingreq hub r session =
      handled-Turned reader Packet.pingreq hub r session
  packet-Turned reader Packet.pingresp hub r session =
      handled-Turned reader Packet.pingresp hub r session

  inbound-Turned :
      (reader : List ℕ) (read : Result (Packet × List ℕ)) (hub : Hub)
      → Reachable hub.broker
      → HasSession client_id hub.broker
      → Turned conn client_id (on_inbound core conn reader client_id read hub)
  inbound-Turned reader (ok (packet, rest)) hub r session = packet-Turned rest packet hub r session
  inbound-Turned reader (err io) hub r session = leave-Turned reader false hub r
  inbound-Turned reader (err Error.channel_closed) hub r session =
      fail-Turned reader Error.channel_closed hub r session
  inbound-Turned reader (err Error.ack_timeout) hub r session =
      fail-Turned reader Error.ack_timeout hub r session
  inbound-Turned reader (err (Error.timeout k)) hub r session =
      fail-Turned reader (Error.timeout k) hub r session
  inbound-Turned reader (err (Error.configuration m)) hub r session =
      fail-Turned reader (Error.configuration m) hub r session
  inbound-Turned reader (err (Error.not_connected m)) hub r session =
      fail-Turned reader (Error.not_connected m) hub r session
  inbound-Turned reader (err (Error.protocol v)) hub r session =
      fail-Turned reader (Error.protocol v) hub r session
  inbound-Turned reader (err (Error.codec c)) hub r session =
      fail-Turned reader (Error.codec c) hub r session
  inbound-Turned reader (err (Error.unsupported m)) hub r session =
      fail-Turned reader (Error.unsupported m) hub r session

  event-Turned :
      (event : Event) (reader : List ℕ) (hub : Hub)
      → Reachable hub.broker
      → HasSession client_id hub.broker
      → Turned conn client_id (on_event core conn event reader client_id hub)
  event-Turned inbound reader hub r session =
      inbound-Turned reader (read_packet reader (protocol_version (channel_of conn hub))) hub r
        session
  event-Turned elapsed reader hub r session = leave-Turned reader false hub r
  event-Turned notified reader hub r session = leave-Turned reader false hub r

  phase-Turned :
      (phase : Phase) (event : Event) (s : Serving)
      → s.phase ≡ phase
      → Reachable s.hub.broker
      → Outcome conn client_id phase s.hub
      → Turned conn client_id (serve_at core conn phase event s)
  phase-Turned (running other) event s at r (same, session) =
      elim (Bool-cases (channel_of conn s.hub).is_open) [
        | inl open_still ↦ rw (open_still, same) (event-Turned event s.reader s.hub r session)
        | inr gone ↦ rw (gone, same) (leave-Turned s.reader false s.hub r)
      ]
  phase-Turned left event s at r o = record { reaches = r; outcome = rw at o }
  phase-Turned (failed e) event s at r o = record { reaches = r; outcome = rw at o }

  serve-Turned :
      (event : Event) (s : Serving)
      → Reachable s.hub.broker
      → Outcome conn client_id s.phase s.hub
      → Turned conn client_id (serve core conn event s)
  unfolding serve
  serve-Turned event s = phase-Turned s.phase event s refl

  -- From a reachable state, whatever events a connection of a client with a session goes through: the
  -- state is reachable, and the client has its session while the loop runs; once the loop has ended the
  -- channel is closed, and the client has neither session nor subscription; once an error has ended the
  -- connection the channel is closed, but the client still has its session.
  pub serve_all-Outcome :
      (events : List Event) (s : Serving)
      → Reachable s.hub.broker
      → Outcome conn client_id s.phase s.hub
      → let after = serve_all core conn events s in
        Reachable after.hub.broker × Outcome conn client_id after.phase after.hub
  unfolding serve_all
  serve_all-Outcome [] s r o = (r, o)
  serve_all-Outcome (event ∷ events) s r o =
      let turned = serve-Turned event s r o in
      serve_all-Outcome events (serve core conn event s) turned.reaches turned.outcome
