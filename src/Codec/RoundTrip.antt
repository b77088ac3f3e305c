-- ===== src/Codec/RoundTrip.antt =====
-- Every packet that the encoders can represent is decoded to itself.
pub mod Wire
pub mod Single
pub mod Publish
pub mod Connect
pub mod Lists
pub mod Packets
pub mod Framed
pub mod Lacking
