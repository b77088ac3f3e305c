-- ===== src/Codec.antt =====
-- src/codec.rs: the version-aware wire codec.
pub mod Ends
pub mod Encode
pub mod Parse
pub mod ParseLists
pub mod Stream
pub mod Framing
pub mod RoundTrip
pub mod Writers
