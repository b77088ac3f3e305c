-- ===== src/Codes.antt =====
-- The numeric types of src/packet.rs and src/request.rs, each with its conversions to and from a
-- byte. An enum's discriminant is written out by `as_u8`.
pub mod QoS
pub mod SubackCode
pub mod ProtocolVersion
pub mod PacketType
pub mod ReturnCode
pub mod RoundTrip
