-- ===== src/Channel.antt =====
-- Project/Network/src/channel, Project/Network/src/connection/ChannelRecord.h and ChannelRecord.cpp:
-- which channels a packet carried, what a channel sends again, and the order of what it receives.
pub mod Record
pub mod Building
pub mod Sending
pub mod Receiving
mod Examples
