-- ===== src/Channel/Writer.antt =====
-- src/channel.rs: `writer_actor`, one turn of its `select!` loop at a time.
pub mod Delivery
use jack_hotaru_mqtt.Base.{
  ℕ, Bool, true, false, List, [], ◌∷◌, ◌++◌, Option, none, some, take, if◌then◌else◌,
}
use jack_hotaru_mqtt.Error.{Result, ok, err}
use jack_hotaru_mqtt.Codes.ProtocolVersion.{ProtocolVersion}
use jack_hotaru_mqtt.Codec.Stream.{write_packet, write_publish_packet}
use jack_hotaru_mqtt.Channel
use jack_hotaru_mqtt.Channel.{MqttChannel, WriteCmd, protocol_version}

-- The channel, and what the wire has taken.
pub record WriterState : Type 0 where
  pub channel : MqttChannel
  pub written : List ℕ

-- What a turn of the loop waits for: a command, whose bytes the wire takes; a command, of whose bytes
-- the wire takes no more than the first `n` before it fails; the shutdown signal.
pub data Turn : Type 0 where
  receive : Turn
  receive_failing : ℕ → Turn
  notified : Turn

-- After the loop: the receiver is dropped, and what was queued with it.
unfoldable pub stop : WriterState → WriterState
stop s = record s { channel = record s.channel { is_open = false; listening = false; queue = [] } }

abbrev pub bytes_of : WriteCmd → ProtocolVersion → Result (List ℕ)
bytes_of (Channel.packet p) version = write_packet p version
bytes_of (Channel.publish p) version = write_publish_packet p version
bytes_of Channel.flush version = ok []
bytes_of Channel.shutdown version = ok []

abbrev pub is_shutdown : WriteCmd → Bool
is_shutdown Channel.shutdown = true
is_shutdown _ = false

-- The command that was received is written whole, or not at all if it cannot be encoded.
abbrev pub write_whole : WriteCmd → List WriteCmd → Result (List ℕ) → WriterState → WriterState
write_whole cmd rest (err e) s = stop s
write_whole cmd rest (ok bytes) s =
    if is_shutdown cmd
    then stop s
    else record { channel = record s.channel { queue = rest }; written = s.written ++ bytes }

-- A write that fails ends the loop; the outcome of a flush is ignored.
abbrev pub write_part : ℕ → WriteCmd → List WriteCmd → Result (List ℕ) → WriterState → WriterState
write_part n Channel.flush rest bytes s = record s { channel = record s.channel { queue = rest } }
write_part n cmd rest (err e) s = stop s
write_part n cmd rest (ok bytes) s = stop (record s { written = s.written ++ take n bytes })

abbrev pub turn_on : Turn → List WriteCmd → WriterState → WriterState
turn_on notified queue s = stop s
turn_on receive [] s = s
turn_on receive (cmd ∷ rest) s = write_whole cmd rest (bytes_of cmd (protocol_version s.channel)) s
turn_on (receive_failing n) [] s = s
turn_on (receive_failing n) (cmd ∷ rest) s =
    write_part n cmd rest (bytes_of cmd (protocol_version s.channel)) s

-- A turn; once the loop has ended there is none.
unfoldable pub turn : Turn → WriterState → WriterState
unfolding stop
turn t s = if s.channel.listening then turn_on t s.channel.queue s else s

unfoldable pub turns : List Turn → WriterState → WriterState
turns [] s = s
turns (t ∷ ts) s = turns ts (turn t s)
