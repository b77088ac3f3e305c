-- ===== src/Protocol/Chain.antt =====
-- src/protocol.rs: `run_server_chain_then_decide_fanout`. What else the code at an endpoint does to
-- the connections are steps of their own.
pub mod Agreement
use jack_hotaru_mqtt.Base.{
  Bool, true, false, ◌&&◌, List, [], ◌∷◌, split, Option, none, some, if◌then◌else◌,
}
use jack_hotaru_mqtt.Error.{Result, ok, err}
use jack_hotaru_mqtt.Request.{IncomingPublish}
use jack_hotaru_mqtt.Packet.{PublishPacket}
use jack_hotaru_mqtt.Channel.{MqttChannel}
use jack_hotaru_mqtt.Context.{
  Core, Context, default, set_incoming, install_channel, set_endpoint, should_fanout,
}
use jack_hotaru_mqtt.Protocol.{incoming_from_packet}

-- What the chain made of the publish, put back into the packet.
abbrev pub propagate : Option IncomingPublish → PublishPacket → PublishPacket
propagate none current = current
propagate (some inc) current = record current {
  properties = inc.properties;
  topic = inc.topic;
  payload = inc.payload;
  qos = inc.qos;
  retain = inc.retain;
}

-- `if fanout { Some(current) } else { None }`.
abbrev pub decide : Bool × PublishPacket → Option PublishPacket
decide (fanout, current) = if fanout then some current else none

module _ (core : Core) where
  open core use {Node}

  abbrev pub context_for : MqttChannel → PublishPacket → Node → Context core
  context_for channel current node = set_endpoint core node (
      install_channel core channel
        (set_incoming core (incoming_from_packet current) (default core)))

  abbrev pub after_run : Result (Context core) → Bool × PublishPacket → Bool × PublishPacket
  after_run (ok out) (fanout, current) =
      (fanout && should_fanout core out, propagate out.incoming current)
  after_run (err e) (fanout, current) = (false, current)

  -- The loop over the nodes that the cursor finds; `fanout` and `current` change.
  abbrev pub run_nodes : MqttChannel → List Node → Bool × PublishPacket → Bool × PublishPacket
  run_nodes channel [] (fanout, current) = (fanout, current)
  run_nodes channel (node ∷ nodes) (fanout, current) =
      run_nodes channel nodes
        (after_run (core.run node (context_for channel current node)) (fanout, current))

  unfoldable pub run_server_chain_then_decide_fanout :
      MqttChannel → PublishPacket → Option PublishPacket
  unfolding split
  run_server_chain_then_decide_fanout channel publish =
      decide (run_nodes channel (core.find publish.topic (split publish.topic)) (true, publish))
