-- ===== src/Sequence.antt =====
-- Network/src/sequence: wrap-around sequence numbers, the history of received packets, and the
-- notification state that packs both into a packet header and reads them back.
pub mod Number
pub mod Stream
pub mod History
pub mod Header
pub mod Notify
mod Examples
