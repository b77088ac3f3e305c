-- ===== src/Properties/RoundTrip.antt =====
-- A property block is read back as it was written.
pub mod Piece
pub mod Field
pub mod SlotsLow
pub mod SlotsHigh
pub mod Repeated
pub mod Table
