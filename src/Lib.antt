-- ===== src/Lib.antt =====
-- The network engine of this repository: a reliable protocol on top of UDP, in C++. All paths below
-- are from the repository's root.
--
-- How the parts work together. A channel (Project/Network/src/channel) gathers messages into bunches.
-- A connection (Project/Network/src/connection) puts the bunches into packets, and remembers in a
-- channel record which channels each packet carried. Every packet starts with a header of the packet
-- notification (Project/Network/src/sequence): its own sequence number, the last one received, and a
-- history of which packets before that arrived. From the headers of its peer a connection learns which
-- of its packets arrived; the channels forget the bunches of those and send the bunches of the others
-- again. On the other side a channel passes the bunches on in the order of their numbers, and keeps
-- those that come too early.
--
-- Prelude: the names that all modules share; lists, tests and integers over the native numbers, bits.
--
-- Sequence: Project/Network/src/sequence.
--   Number: SequenceNumber.h, `TSequenceNumber` at 14 bits over `uint16_t`, the one instance there is.
--     A number is a natural number below 2 ^ 14; Order has what the comparisons and `Diff` promise.
--   History: SequenceHistory.h, `TSequenceHistory` at 256 bits, as a list of eight 32-bit words.
--   Header: `FPackedHeader` of NetPacketNotify.cpp.
--   Stream: the bit streams as an interface of 32-bit words, with lists as an instance.
--   Notify: NetPacketNotify.h and NetPacketNotify.cpp, every method that changes the object. Its
--     children hold the invariant `IsValid` and what the methods do in a state that has it.
--   The loop of `AckSeq` runs on 2 ^ 13 rounds of fuel, which is enough: its test holds for distances
--   below 2 ^ 13. The invariant has room for 2 ^ 14 packets outstanding, and what concerns
--   `InternalUpdate` asks for fewer than 2 ^ 13, where the comparisons are reliable.
--   An access that C++ leaves undefined is `none`.
--
-- Channel: Project/Network/src/channel/NetChannel.cpp and Project/Network/src/connection.
--   Record: ChannelRecord.h and ChannelRecord.cpp. The queue of 31-bit entries, and in Groups the queue
--     of packets with their channels that it stands for.
--   Building: Project/Network/src/net_packet/NetBunchBuilder.cpp, how messages become bunches, over any
--     type of message with a size and any clock.
--   Sending: the queues of `NetChannel` on the way out, over any type of bunch. Ledger has the steps of
--     a channel as a relation and what they conserve.
--   Receiving: `DispatchRawBunch`, `AddUnreadInCopyBunch`, the reader of
--     Project/Core/include/BufferReader.h, and the part of `NetConnection::DispatchPacket` that decides
--     between them. The loops recurse on the map and on the message count, so there is no fuel.
--
-- Rtt: Project/Network/src/connection/RttTracker.h and RttTracker.cpp, the measured packets and the
-- ring of samples. `ComputeStats` is left out: it only reads the ring, and works on double.
--
-- Ids: Project/Network/src/utils/IDAllocator.h and IDAllocator.cpp, the ids that clients get.
--
-- Connection: Project/Network/src/connection/NetConnection.h and NetConnection.cpp, a connection with
-- its channels, record, tracker and notification.
--   Relative: `MakeRelative`, the number of a bunch from its ten bits.
--   Notified: `ReceivedPacket`, `RecivedAck` and `RecivedNack`. InStep has what keeps the packet ids, the
--     record and the notification together; the clock's reading is an argument.
--   Dispatching: `DispatchPacket` and `DispatchPendingPacket` on the bytes of a payload. The virtual
--     `CreateChannelByName` is a parameter, and the connection stays open while a packet is dispatched:
--     the handlers of messages, which might close it, are outside. The fuel of the loop is the length of
--     the payload, since a round takes a byte at least.
--   Packets: Project/Network/src/net_packet/NetPacket.cpp and NetPacketBuilder.cpp, a packet with its
--     bunches and the views that are handed to the socket.
--   Assembling: `AssembleOutgoingPackets` with `IsRequireAssembleBunch`, and `UpdatePacketHeader`. The
--     queue of packets is passed along, and the keep-alive time is a Boolean argument. The fuel of the
--     outer loop is two, since the first round empties the channels or leaves the function.
--
-- Pending: Project/Network/src/connection/PendingNetConnection.h and PendingNetConnectionManager.cpp, the
-- handshakes under way in sixty maps by time, and what UdpPacketProcessor.cpp does with them on an
-- arrival and on a tick. A double of seconds is the driver's count of microseconds behind it.
--
-- Handshake: Project/Network/src/processor/UdpPacketProcessor.cpp from the parsed packets on. The keyed
-- hash of a library is a parameter. Added has whom a server takes for a client, Agreed what a finished
-- handshake leaves at its ends, on the connections of Connection.
--
-- Simulation: Project/Network/src/simulation/PacketSimulator.cpp, with its random draws as arguments.
--
-- BitStream: Project/Core/src/BitReader.cpp and BitWriter.cpp, with the headers of packets on them.
--   Copy: `appBitsCpy` on buffers as lists of bytes; a read past the end gives 0 and a write nothing.
--     Short and Long have its two branches, Copied the whole.
--   Writer, Reader: the two streams; a position is far below 2 ^ 31, where int32_t holds it. Table has
--     the tables of masks and the bytes of an integer.
--   Transfer: what a writer wrote, read by a reader, and the two as the streams that Sequence/Stream
--     asks for. Header has the sequence headers on them, Cut the headers that do not fit.
--   Packet: `PacketHeader` of Project/Network/src/net_packet/NetPacket.cpp and the constructor of
--     `RecvPacketReader` of NetPacketReader.cpp.
--   Int: `SerializeInt` and `CeilLogTwo` of Project/Core/include/MathUtility.h. The loops have 33 rounds
--     of fuel, which is enough: the mask wraps to 0 after 32.
--   Packed: `SerializeIntPacked`, five bytes at most, and `<<` of a string.
--
-- Not modelled: logging and telemetry, which only write; sockets, threads, clocks and allocators, which
-- are the operating system's; the drivers and the bits of a handshake packet; the sample game around
-- the engine. Shared pointers to bunches are the bunches: no bunch is changed once it is built.
pub mod Prelude
pub mod Sequence
pub mod Channel
pub mod Rtt
pub mod Ids
pub mod Connection
pub mod Simulation
pub mod Pending
pub mod Handshake
pub mod BitStream
