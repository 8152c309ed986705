-- ===== src/Mtp2.antt =====
-- mtp2.c: one signalling link at level 2.
pub mod Types
mod Sample
pub mod Buffers
pub mod States
pub mod Receive
pub mod Transmit
