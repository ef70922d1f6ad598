-- ===== src/Machine.antt =====
-- The machine that the code runs on: 64-bit words, their bits, and a memory of bytes.
pub mod Word
pub mod Bits
pub mod Memory
pub mod PowerOfTwo
pub mod PageRounding
