-- ===== src/Wire.antt =====
-- src/codec.rs and src/properties.rs: numbers, length-prefixed fields and variable-length integers.
-- A pair `body: &[u8], cursor: &mut usize` is the list of the bytes from the cursor on; a function
-- that moves the cursor returns the bytes that it leaves.
pub mod Integers
pub mod Fields
pub mod Length
