-- ===== src/Protocol/Client/Ticks.antt =====
-- The ping timer, and the packet that is being read when it ticks.
use jack_hotaru_mqtt.Base.{
  ℕ, zero, suc, ◌/◌, ◌^◌, ◌<◌, ◌≤◌, ◌≡◌, ◌⊎◌, inl, inr, refl, ap, ◌∙◌, true, false, List, [], ◌∷◌,
  ◌++◌, none, drop, length, arith,
}
use jack_hotaru_mqtt.Error.{ok, err, codec, invalid_packet_type}
use jack_hotaru_mqtt.Codes.PacketType
use jack_hotaru_mqtt.Codec.RoundTrip.Wire.{IsWire}
use jack_hotaru_mqtt.Codes.ProtocolVersion.{ProtocolVersion}
use jack_hotaru_mqtt.Packet.{Packet}
use jack_hotaru_mqtt.Codec.Encode.{encode_packet}
use jack_hotaru_mqtt.Codec.Stream.{read_packet}
use jack_hotaru_mqtt.Codec.RoundTrip.Packets.{decode-encode_packet}
use jack_hotaru_mqtt.Channel
use jack_hotaru_mqtt.Channel.{protocol_version, send_packet, close}
use jack_hotaru_mqtt.Protocol.{dispatch_client_inbound}
use jack_hotaru_mqtt.Protocol.Client.{
  running, failed, Session, Event, inbound, ticked, serve, on_event, on_inbound, after_dispatch,
  enter, on_wire,
}
use jack_hotaru_mqtt.Protocol.Server.Store.{queued, send_packet-queued}

-- A byte with which no packet starts: the four bits of the type are 0 or 15.
abbrev pub StartsNone : ℕ → Type 0
StartsNone b = (b < 16) ⊎ (240 ≤ b)

no_type : (v : ℕ) → (v < 1) ⊎ (15 ≤ v) → PacketType.try_from v ≡ none
no_type v (inl low) = ground arith
no_type v (inr high) = ground arith

reads_none :
    (version : ProtocolVersion) (b : ℕ) (rest : List ℕ)
    → StartsNone b
    → read_packet (b ∷ rest) version ≡ err (codec (invalid_packet_type (b / 16)))
unfolding read_packet
reads_none version b rest (inl low) = rw (no_type (b / 16) (inl (omega arith))) refl
reads_none version b rest (inr high) = rw (no_type (b / 16) (inr (omega arith))) refl

drop-append :
    (n : ℕ) (xs ys : List ℕ) (b : ℕ) (tail : List ℕ)
    → drop n xs ≡ b ∷ tail
    → drop n (xs ++ ys) ≡ b ∷ (tail ++ ys)
drop-append zero xs ys b tail h = rw h refl
drop-append (suc n) [] ys b tail h = cc
drop-append (suc n) (x ∷ xs) ys b tail h = drop-append n xs ys b tail h

pub serve_running :
    (event : Event) (s : Session)
    → s.phase ≡ running
    → s.connection.channel.is_open ≡ true
    → serve event s ≡ on_event event s.reader s.connection
unfolding serve
serve_running event s runs opened = rw (runs, opened) refl

abbrev pinged : Session → Session
pinged s = record s {
  connection = on_wire (queued (Channel.packet Packet.pingreq) s.connection.channel) s.connection;
}

on_tick :
    (n b : ℕ) (tail : List ℕ) (s : Session)
    → drop n s.reader ≡ b ∷ tail
    → s.connection.channel.listening ≡ true
    → on_event (ticked n) s.reader s.connection ≡ enter (b ∷ tail) (pinged s).connection
unfolding serve
on_tick n b tail s cut listens =
    rw (cut, send_packet-queued Packet.pingreq s.connection.channel listens) refl

-- The next packet on the wire of a client in its loop is any that the wire can represent. Read in one
-- piece it is handled, and the stream then stands behind it. But if the ping timer ticks when the read
-- has taken the first `n` bytes of it, and the byte after these is one with which no packet starts, as a
-- length below 16 is after the first byte, then the loop sends its PINGREQ and goes on in the middle of
-- the packet; the next read fails on that byte, and the connection fails and is closed, without the
-- packet having been dispatched or anybody having been sent an acknowledgement.
pub tick_desyncs :
    (packet : Packet) (wire rest : List ℕ) (n b : ℕ) (tail : List ℕ) (s : Session)
    → s.phase ≡ running
    → s.connection.channel.is_open ≡ true
    → s.connection.channel.listening ≡ true
    → IsWire (protocol_version s.connection.channel) packet
    → encode_packet packet (protocol_version s.connection.channel) ≡ ok wire
    → length wire < 2 ^ 28
    → s.reader ≡ wire ++ rest
    → drop n wire ≡ b ∷ tail
    → StartsNone b
    → let ticking = serve (ticked n) s in
      let late = serve inbound ticking in
      (serve inbound s ≡ after_dispatch rest (dispatch_client_inbound packet s.connection))
      × (ticking.phase ≡ running)
      × (ticking.connection.channel.queue
          ≡ s.connection.channel.queue ++ (Channel.packet Packet.pingreq ∷ []))
      × (late.phase ≡ failed (codec (invalid_packet_type (b / 16))))
      × (late.connection.channel.is_open ≡ false)
      × (late.connection.dispatched ≡ s.connection.dispatched)
      × (late.connection.delivered ≡ s.connection.delivered)
tick_desyncs packet wire rest n b tail s runs opened listens is_wire encoded short starts cut
      none_starts =
    let version = protocol_version s.connection.channel in
    let whole : on_event inbound s.reader s.connection
        ≡ after_dispatch rest (dispatch_client_inbound packet s.connection) =
      unfold serve in
      ap (λ r. on_inbound s.reader r s.connection)
        (ap (λ reader. read_packet reader version) starts
          ∙ (decode-encode_packet packet version wire rest is_wire encoded short).1) in
    let ticking =
      serve_running (ticked n) s runs opened
      ∙ on_tick n b (tail ++ rest) s (ap (drop n) starts ∙ drop-append n wire rest b tail cut)
          listens in
    let after = enter (b ∷ (tail ++ rest)) (pinged s).connection in
    let broken : serve inbound (serve (ticked n) s)
        ≡ on_inbound after.reader (err (codec (invalid_packet_type (b / 16)))) after.connection =
      ap (serve inbound) ticking
      ∙ (serve_running inbound after refl opened
          ∙ ap (λ r. on_inbound after.reader r after.connection)
              (reads_none (protocol_version after.connection.channel) b (tail ++ rest)
                none_starts)) in
    (
      serve_running inbound s runs opened ∙ whole,
      ap (λ (t : Session). t.phase) ticking,
      ap (λ (t : Session). t.connection.channel.queue) ticking,
      ap (λ (t : Session). t.phase) broken,
      ap (λ (t : Session). t.connection.channel.is_open) broken ∙ unfold close in rw opened refl,
      ap (λ (t : Session). t.connection.dispatched) broken,
      ap (λ (t : Session). t.connection.delivered) broken,
    )
