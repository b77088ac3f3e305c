-- ===== src/Protocol/Server/Store.antt =====
-- A channel in the store of connections, and a packet that is queued on it.
use jack_hotaru_mqtt.Base.{
  ==_refl, ℕ, ◌==◌, ==_iff, ◌≡◌, ◌≢◌, refl, inl, inr, true, Bool-cases, [], ◌∷◌, ◌++◌,
}
use jack_hotaru_mqtt.Error.{ok}
use jack_hotaru_mqtt.Packet.{Packet}
use jack_hotaru_mqtt.Channel
use jack_hotaru_mqtt.Channel.{MqttChannel, WriteCmd, send_packet}
use jack_hotaru_mqtt.Protocol.Server.{Hub, channel_of, with_channel}

pub channel_of-same :
    (conn : ℕ) (channel : MqttChannel) (hub : Hub)
    → channel_of conn (with_channel conn channel hub) ≡ channel
channel_of-same conn channel hub = rw (==_refl conn) refl

pub channel_of-other :
    (conn other : ℕ) (channel : MqttChannel) (hub : Hub)
    → conn ≢ other
    → channel_of conn (with_channel other channel hub) ≡ channel_of conn hub
channel_of-other conn other channel hub differ = elim (Bool-cases (conn == other)) [
  | inl same ↦ absurd (differ ((==_iff conn other).0 same))
  | inr differs ↦ rw differs refl
]

-- The channel with one command more.
abbrev pub queued : WriteCmd → MqttChannel → MqttChannel
queued cmd channel = record channel { queue = channel.queue ++ (cmd ∷ []) }

pub send_packet-queued :
    (p : Packet) (channel : MqttChannel)
    → channel.listening ≡ true
    → send_packet p channel ≡ (ok tt, queued (Channel.packet p) channel)
unfolding send_packet
send_packet-queued p channel listens = rw listens refl
