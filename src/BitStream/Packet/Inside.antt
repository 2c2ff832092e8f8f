-- ===== src/BitStream/Packet/Inside.antt =====
-- Where the payload of a received datagram lies.
use rudp_network_engine.Prelude.{ℕ, ◌+◌, ◌-◌, ◌^◌, ◌≤◌, ◌<◌, ◌↔◌, List, arith}
use rudp_network_engine.BitStream.Copy.{byte}
use rudp_network_engine.BitStream.Packet.{receive}

-- For a datagram of fewer than 2 ^ 31 bytes, the payload that `RecvPacketReader` gives out lies inside
-- the datagram exactly if it has at least as many bytes as its first byte says; if not, the size of the
-- payload has wrapped to more than 2 ^ 32 - 256.
pub receive-inside_iff :
    (datagram : List ℕ) (n : ℕ)
    → n < 2 ^ 31
    → (((receive datagram n).payload_offset + (receive datagram n).payload_size ≤ n)
        ↔ (byte datagram 0 ≤ n))
      × (n < byte datagram 0 → 2 ^ 32 - 256 < (receive datagram n).payload_size)
unfolding receive
receive-inside_iff datagram n small = ((λ h. omega arith, λ h. omega arith), λ h. omega arith)
