-- ===== src/Protocol/Chain/Agreement.antt =====
-- A packet is fanned out exactly if every node of the chain lets it pass.
use jack_hotaru_mqtt.Base.{
  ◌≡◌, refl, sym, ap, ◌∙◌, ◌↔◌, ◌≢◌, inl, inr, Bool, true, false, Bool-cases, List, [], ◌∷◌, split,
  Option, none, some, arith, bytes,
}
use jack_hotaru_mqtt.Codes.QoS.{at_most_once}
use jack_hotaru_mqtt.Request
use jack_hotaru_mqtt.Request.{IncomingPublish, published, sent}
use jack_hotaru_mqtt.Error.{MqttError, Result, ok, err, Result-cases}
use jack_hotaru_mqtt.Packet.{PublishPacket}
use jack_hotaru_mqtt.Channel.{MqttChannel}
use jack_hotaru_mqtt.Context.{Core, Context, should_fanout}
use jack_hotaru_mqtt.Protocol.Chain.{
  context_for, after_run, run_nodes, propagate, decide, run_server_chain_then_decide_fanout,
}

module _ (core : Core) where
  open core use {Node}

  -- The context that a node is given, written out: the packet, the connection and the node, in an
  -- otherwise empty context that is for the fan-out.
  abbrev pub Given : MqttChannel → PublishPacket → Node → Context core → Type 0
  Given channel current node ctx = ctx ≡ record {
    request =
        Request.publish
          (record { topic = bytes ""; payload = []; qos = at_most_once; retain = false });
    response = published sent;
    incoming = some (record {
      properties = current.properties;
      topic = current.topic;
      payload = current.payload;
      qos = current.qos;
      retain = current.retain;
      dup = current.dup;
      packet_id = current.packet_id;
    });
    channel = some channel;
    fanout = true;
    endpoint = some node;
    params = core.no_params;
    locals = core.no_locals;
  }

  -- What a run leaves of the packet: the DUP flag and the identifier are those of before, and all else
  -- is what stands in the context, if a publish still does.
  abbrev pub Leaves : Option IncomingPublish → PublishPacket → PublishPacket → Type 0
  Leaves none current next = next ≡ current
  Leaves (some inc) current next = next ≡ record {
    properties = inc.properties;
    topic = inc.topic;
    payload = inc.payload;
    dup = current.dup;
    qos = inc.qos;
    retain = inc.retain;
    packet_id = current.packet_id;
  }

  -- The run at each node succeeds and is for the fan-out; each node is given what the one before has
  -- left of the packet, and `last` is what the last one has.
  abbrev pub Passes : MqttChannel → List Node → PublishPacket → PublishPacket → Type 0
  Passes channel [] current last = current ≡ last
  Passes channel (node ∷ nodes) current last =
      (ctx : Context core) × (out : Context core) × (next : PublishPacket) × Given channel current
        node ctx
      × (core.run node ctx ≡ ok out)
      × (out.fanout ≡ true)
      × Leaves out.incoming current next
      × Passes channel nodes next last

  given :
      (channel : MqttChannel) (current : PublishPacket) (node : Node)
      → Given channel current node (context_for core channel current node)
  given channel current node = refl

  leaves :
      (inc : Option IncomingPublish) (current : PublishPacket)
      → Leaves inc current (propagate inc current)
  leaves none current = refl
  leaves (some inc) current = refl

  left_unique :
      (inc : Option IncomingPublish) (current next : PublishPacket)
      → Leaves inc current next
      → next ≡ propagate inc current
  left_unique none current next h = h
  left_unique (some inc) current next h = h

  after_node :
      (channel : MqttChannel) (node : Node) (nodes : List Node) (fanout : Bool)
      (current : PublishPacket) (r : Result (Context core))
      → core.run node (context_for core channel current node) ≡ r
      → run_nodes core channel (node ∷ nodes) (fanout, current)
        ≡ run_nodes core channel nodes (after_run core r (fanout, current))
  after_node channel node nodes fanout current r ran =
      ap (λ r. run_nodes core channel nodes (after_run core r (fanout, current))) ran

  stays_false :
      (channel : MqttChannel) (nodes : List Node) (s : Bool × PublishPacket)
      → s.0 ≡ false
      → (run_nodes core channel nodes s).0 ≡ false
  stays_false channel [] s h = h
  stays_false channel (node ∷ nodes) (fanout, current) h =
      elim (Result-cases (core.run node (context_for core channel current node))) [
        | inl (out, ran) ↦
            rw (after_node channel node nodes fanout current (ok out) ran)
              (stays_false channel nodes _ (rw h refl))
        | inr (e, failed) ↦
            rw (after_node channel node nodes fanout current (err e) failed)
              (stays_false channel nodes _ refl)
      ]

  no_packet :
      (channel : MqttChannel) (nodes : List Node) (s : Bool × PublishPacket)
      → s.0 ≡ false
      → decide (run_nodes core channel nodes s) ≡ none
  no_packet channel nodes s h = ground (arith, stays_false channel nodes s h)

  passes :
      (channel : MqttChannel) (nodes : List Node) (current last : PublishPacket)
      → Passes channel nodes current last
      → decide (run_nodes core channel nodes (true, current)) ≡ some last
  passes channel [] current last h = rw h
  passes channel (node ∷ nodes) current last (ctx, out, next, is_given, ran, for_it, left, later) =
      let here : core.run node (context_for core channel current node) ≡ ok out =
        ap (λ c. core.run node c) (given channel current node ∙ sym is_given) ∙ ran in
      rw (after_node channel node nodes true current (ok out) here, for_it)
        (ap (λ p. decide (run_nodes core channel nodes (true, p)))
            (sym (left_unique out.incoming current next left))
          ∙ passes channel nodes next last later)

  failed_none :
      (channel : MqttChannel) (nodes : List Node) (current last : PublishPacket) (node : Node)
      (e : MqttError)
      → core.run node (context_for core channel current node) ≡ err e
      → decide (run_nodes core channel (node ∷ nodes) (true, current)) ≢ some last
  failed_none channel nodes current last node e failed h =
      let nothing = no_packet channel nodes (after_run core (err e) (true, current)) refl in
      let nothing' : decide (run_nodes core channel (node ∷ nodes) (true, current)) ≡ none =
        rw (after_node channel node nodes true current (err e) failed) nothing in
      cc (nothing', h)

  against_none :
      (channel : MqttChannel) (nodes : List Node) (current last : PublishPacket) (node : Node)
      (out : Context core)
      → core.run node (context_for core channel current node) ≡ ok out
      → should_fanout core out ≡ false
      → decide (run_nodes core channel (node ∷ nodes) (true, current)) ≢ some last
  against_none channel nodes current last node out ran against h =
      let nothing =
        no_packet channel nodes (after_run core (ok out) (true, current)) (rw against refl) in
      let nothing' : decide (run_nodes core channel (node ∷ nodes) (true, current)) ≡ none =
        rw (after_node channel node nodes true current (ok out) ran) nothing in
      cc (nothing', h)

  passed :
      (channel : MqttChannel) (nodes : List Node) (current last : PublishPacket)
      → decide (run_nodes core channel nodes (true, current)) ≡ some last
      → Passes channel nodes current last
  passed channel [] current last h = cc
  passed channel (node ∷ nodes) current last h =
      elim (Result-cases (core.run node (context_for core channel current node))) [
        | inr (e, failed) ↦ absurd (failed_none channel nodes current last node e failed h)
        | inl (out, ran) ↦ elim (Bool-cases (should_fanout core out)) [
          | inr against ↦ absurd (against_none channel nodes current last node out ran against h)
          | inl for_it ↦
              (let rest : decide
                      (run_nodes core channel nodes (true, propagate out.incoming current))
                    ≡ some last =
                  ap
                    (λ b. decide (run_nodes core channel nodes (b, propagate out.incoming current)))
                    (sym for_it)
                  ∙ (ap decide (sym (after_node channel node nodes true current (ok out) ran))
                      ∙ h) in
                (
                  context_for core channel current node,
                  out,
                  propagate out.incoming current,
                  given channel current node,
                  ran,
                  for_it,
                  leaves out.incoming current,
                  passed channel nodes (propagate out.incoming current) last rest,
                ))
        ]
      ]

  -- The publish is fanned out, as `last`, exactly if the run at every node that is found for its topic
  -- succeeds and does not suppress the fan-out, `last` being what these runs make of the packet, one
  -- after the other: each is given the packet with its connection and its node, in an otherwise empty
  -- context, and leaves a packet of the same DUP flag and identifier, with the properties, the topic,
  -- the payload, the QoS and the RETAIN flag of the publish in its context, or the same packet if none
  -- is there. A publish without an endpoint is fanned out as it is.
  pub fanned_out_iff :
      (channel : MqttChannel) (publish last : PublishPacket)
      → (run_server_chain_then_decide_fanout core channel publish ≡ some last)
        ↔ Passes channel (core.find publish.topic (split publish.topic)) publish last
  unfolding run_server_chain_then_decide_fanout
  fanned_out_iff channel publish last =
      let nodes = core.find publish.topic (split publish.topic) in
      (passed channel nodes publish last, passes channel nodes publish last)
