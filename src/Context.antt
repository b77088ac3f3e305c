-- ===== src/Context.antt =====
-- src/context.rs: `MqttContext`. The endpoint nodes, the parameters and the locals are hotaru_core's:
-- their types, their empty values and the nodes' own methods are parameters.
use jack_hotaru_mqtt.Base.{
  ℕ, Bool, true, false, List, [], Str, bytes, split, Option, none, some, get_elem?,
}
use jack_hotaru_mqtt.Error.{Result}
use jack_hotaru_mqtt.Codes.QoS.{at_most_once}
use jack_hotaru_mqtt.Request
use jack_hotaru_mqtt.Request.{
  IncomingPublish, PublishRequest, MqttRequest, MqttResponse, published, sent,
}
use jack_hotaru_mqtt.Channel
use jack_hotaru_mqtt.Channel.{MqttChannel, ProtocolRole}

pub record MqttContext (Node Params Locals : Type 0) : Type 0 where
  pub request : MqttRequest
  pub response : MqttResponse
  pub incoming : Option IncomingPublish
  pub channel : Option MqttChannel
  pub fanout : Bool
  pub endpoint : Option Node
  pub params : Params
  pub locals : Locals

-- What hotaru_core gives: the nodes that `find_next` finds, one after the other, on a cursor over the
-- topic with its segments; a run of the chain at a node; where a node has a named segment.
pub record Core : Type 1 where
  pub Node : Type 0
  pub Params : Type 0
  pub Locals : Type 0
  pub no_params : Params
  pub no_locals : Locals
  pub find : Str → List Str → List Node
  pub run : Node → MqttContext Node Params Locals → Result (MqttContext Node Params Locals)
  pub match_seg_name_with_index : Node → Str → Option ℕ

-- `PublishRequest::default()`.
abbrev pub empty_request : PublishRequest
empty_request = record { topic = bytes ""; payload = []; qos = at_most_once; retain = false }

module _ (core : Core) where
  open core use {Node, Params, Locals}

  abbrev pub Context : Type 0
  Context = MqttContext Node Params Locals

  -- `MqttContext::default()`.
  abbrev pub default : Context
  default = record {
    request = Request.publish empty_request;
    response = published sent;
    incoming = none;
    channel = none;
    fanout = true;
    endpoint = none;
    params = core.no_params;
    locals = core.no_locals;
  }

  abbrev pub install_channel : MqttChannel → Context → Context
  install_channel channel ctx = record ctx { channel = some channel }

  abbrev pub set_incoming : IncomingPublish → Context → Context
  set_incoming p ctx = record ctx { incoming = some p }

  abbrev pub set_endpoint : Node → Context → Context
  set_endpoint node ctx = record ctx { endpoint = some node }

  abbrev pub should_fanout : Context → Bool
  should_fanout ctx = ctx.fanout

  abbrev pub suppress_fanout : Context → Context
  suppress_fanout ctx = record ctx { fanout = false }

  abbrev pub handle_error : Context → Context
  handle_error ctx = record ctx { fanout = false }

  abbrev pub topic_of : Option IncomingPublish → Option Str
  topic_of none = none
  topic_of (some p) = some p.topic

  abbrev pub topic : Context → Option Str
  topic ctx = topic_of ctx.incoming

  abbrev pub payload_of : Option IncomingPublish → Option (List ℕ)
  payload_of none = none
  payload_of (some p) = some p.payload

  abbrev pub payload : Context → Option (List ℕ)
  payload ctx = payload_of ctx.incoming

  -- `split('/').nth(idx)`, where the chain of `?` got that far.
  abbrev pub param_at : Option Str → Option ℕ → Option Str
  param_at none index = none
  param_at (some t) none = none
  param_at (some t) (some idx) = get_elem? (split t) idx

  abbrev pub index_at : Option Node → Str → Option ℕ
  index_at none name = none
  index_at (some node) name = core.match_seg_name_with_index node name

  abbrev pub param : Str → Context → Option Str
  param name ctx = param_at (topic ctx) (index_at ctx.endpoint name)

  abbrev pub client_id_on : Option MqttChannel → Option Str
  client_id_on none = none
  client_id_on (some channel) = Channel.client_id channel

  abbrev pub client_id : Context → Option Str
  client_id ctx = client_id_on ctx.channel

  abbrev pub role_on : Option MqttChannel → ProtocolRole
  role_on none = Channel.client
  role_on (some channel) = channel.role

  abbrev pub role : Context → ProtocolRole
  role ctx = role_on ctx.channel

  abbrev pub inject_request : MqttRequest → Context → Context
  inject_request req ctx = record ctx { request = req }

  abbrev pub into_response : Context → MqttResponse
  into_response ctx = ctx.response
