-- ===== src/BitStream.antt =====
-- The bit streams of Project/Core that the packets are written to and read from.
pub mod Copy
pub mod Table
pub mod Writer
pub mod Reader
pub mod Transfer
pub mod Packet
pub mod Int
pub mod Packed
mod Examples
