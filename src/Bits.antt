-- ===== src/Bits.antt =====
-- Bits of native numbers, for the masks of allocator.rs: the bit test, what each bit operation
-- does to it, and what the counts of zeros find.
pub mod Step
pub mod Test
pub mod Zeros
pub mod Fields
