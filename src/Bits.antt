-- ===== src/Bits.antt =====
-- The bit operations of the source on unsigned words, as laws at every width: what a mask, a shift
-- and an exclusive or do to a number.
mod Step
pub mod Fields
pub mod Xor
pub use Step.*
