-- ===== src/Lib.antt =====
-- jack_hotaru_mqtt: an MQTT 3.1.1 and 5 protocol for the hotaru framework, with a client and a broker.
--
-- A connection reads bytes, which the codec turns into packets; the protocol's handlers act on the
-- session of the connection and on the broker, which all connections share; what a handler sends
-- goes through the queue of a channel to the writer of that connection, which encodes it again. The
-- broker fans a PUBLISH out to the channels of the clients whose filters match its topic.
--
-- Files, and the code they model (paths from the repository's root):
--   Base         std: lists, texts and UTF-8, bits, maps (a DashMap as an association list)
--   Codes        src/request.rs and src/packet.rs: QoS, SubackCode, ProtocolVersion, PacketType and
--                ConnackReturnCode, with their conversions to and from bytes
--   Error        src/error.rs: MqttError and its parts; Result with `?` as bind
--   Request      src/request.rs: the types of requests and responses
--   Packet       src/packet.rs: the packets
--   Wire         src/codec.rs: integers, length-prefixed fields and the remaining length
--   Properties   src/properties.rs: Properties with parse, validate_values, encode_values, encode
--   Codec        src/codec.rs: encode_packet and its parts (Encode), the parsers (Parse, ParseLists),
--                decode_packet_from_bytes, read_packet, write_packet, write_publish_packet (Stream)
--   Topic        src/topic.rs: the parsers and validators of topics and filters
--   Session      src/session.rs: MqttSession with allocate_packet_id, abandon and the bind
--   Channel      src/channel.rs: MqttChannel with its queue, send_packet, send_publish and close; the
--                task writer_actor (Writer)
--   Context      src/context.rs: MqttContext
--   Client       src/client.rs: MqttClientConfig; build_connect of src/protocol.rs
--   Broker       src/broker.rs: filter_matches (Filter), SubscriptionTree (Tree), and the broker with
--                register_session, unregister_session, subscribe, unsubscribe and publish (State)
--   Protocol     src/protocol.rs: dispatch_client_inbound with ack_inbound_publish_pre_chain, fire_ack,
--                fire_suback and fire_unsuback; MqttProtocol (Instance); send_impl with send_publish,
--                send_subscribe and send_unsubscribe (Requests);
--                run_server_chain_then_decide_fanout (Chain); dispatch_server_inbound, with
--                ack_outbound of src/broker.rs (Server); handle_server up to the CONNACK
--                (Server/Accept) and its loop (Server/Loop); handle_client (Client)
--   Tests        the theorems at concrete inputs
--
-- How the state corresponds. A byte is a number below 256 and a text the list of its UTF-8 bytes. A
-- body with a cursor is the list of the bytes from the cursor on. A reader is the list of the bytes to
-- come, and its end is an I/O error; a decoder's buffer is passed in and handed back. The channels of
-- the broker's sessions stand in a store under their connection ids, since the connection and the
-- broker share them; a lock on a map holds for one call, so an operation of the broker is one step,
-- and Broker/State/Reachable takes these steps in any order. An iteration over a DashMap goes through
-- the list; the code promises no order either.
--
-- Tasks. A handler is cut where it waits, and each wait has its outcomes as an event: a packet that is
-- complete, a time that elapsed, the shutdown signal. A request starts, waits under an identifier, and
-- goes on from the end of its wait; in between the loop and other requests act on the same connection.
-- The writer takes one command in a turn. `handle` closes the channel once its handler has returned.
--
-- Bounds and fuel. A u16 or u32 that wraps has its `% 2 ^ w` written out. encode_remaining_length
-- recurses on the value itself, which gets smaller; the length decoders read at most four bytes. The
-- loops over a body (properties, subscriptions, topics) have the length of the body as fuel, and each
-- round takes at least one byte, so it is not used up.
--
-- Parameters. hotaru_core's PathPattern is a record of its variants, how one is built and how one is
-- matched on, with the law that matching undoes building. Its endpoints are a record as well: the nodes
-- that are found for a topic and what a run at a node makes of a context; what else such a run does is
-- a step of its own. On the client a dispatch is recorded with the publish that is handed over. The
-- authenticator is a function from the CONNECT.
--
-- Not modelled: src/lib.rs and the trait implementations that only name types; Display and the
-- messages of I/O errors; addresses; the durations of timers, which are events; the search for the
-- runtime statics; sockets and the scheduling of tasks, of which the events are what is left.
pub mod Base
pub mod Codes
pub mod Error
pub mod Wire
pub mod Topic
pub mod Properties
pub mod Request
pub mod Packet
pub mod Codec
pub mod Session
pub mod Channel
pub mod Broker
pub mod Context
pub mod Client
pub mod Protocol
pub mod Tests
