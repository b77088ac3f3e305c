-- ===== src/Session/Counter.antt =====
-- src/session.rs: the packet identifiers that a session hands out, one call after another.
use jack_hotaru_mqtt.Base.{ℕ, zero, suc, ◌+◌, ◌^◌, ◌<◌, ◌≤◌, ◌≡◌, ◌≢◌, arith}
use jack_hotaru_mqtt.Session.{MqttSession, allocate_packet_id}

-- The identifiers of `n` calls, and the session after them.
unfoldable pub allocate_many : ℕ → MqttSession → MqttSession
allocate_many zero session = session
allocate_many (suc n) session = allocate_many n (allocate_packet_id session).1

abbrev pub IsCounter : MqttSession → Type 0
IsCounter session = session.pkt_counter < 2 ^ 16

-- An identifier is a u16 other than 0, and the counter stays a u16.
pub allocate_bounds :
    (session : MqttSession)
    → let (id, after) = allocate_packet_id session in (1 ≤ id) × (id < 2 ^ 16) × IsCounter after
unfolding allocate_packet_id
allocate_bounds session = ground arith

counter_after :
    (n : ℕ) (session : MqttSession)
    → session.pkt_counter + n < 2 ^ 16
    → (allocate_many n session).pkt_counter ≡ session.pkt_counter + n
unfolding allocate_many
counter_after zero session h = omega arith
counter_after (suc n) session h =
    let step : (allocate_packet_id session).1.pkt_counter ≡ session.pkt_counter + 1 =
      unfold allocate_packet_id in omega arith in
    omega (arith, step, counter_after n (allocate_packet_id session).1 (omega (arith, step)))

-- Until the counter wraps, the identifier of a later call differs from that of an earlier one.
pub allocate_distinct :
    (n : ℕ) (session : MqttSession)
    → session.pkt_counter + n + 2 < 2 ^ 16
    → (allocate_packet_id (allocate_many (suc n) session)).0 ≢ (allocate_packet_id session).0
unfolding allocate_packet_id
allocate_distinct n session h e =
    let later = counter_after (suc n) session (omega arith) in ground (arith, later, e)

-- Where the counter stands at its last value, the next two calls give the same identifier.
pub allocate_repeats :
    (session : MqttSession)
    → session.pkt_counter ≡ 65535
    → (allocate_packet_id (allocate_many 1 session)).0 ≡ (allocate_packet_id session).0
unfolding allocate_packet_id allocate_many
allocate_repeats session h = rw h
