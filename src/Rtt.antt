-- ===== src/Rtt.antt =====
-- Project/Network/src/connection/RttTracker.h and RttTracker.cpp: the packets whose round trip is
-- still measured, and the ring of the latest samples. Packet ids are not negative.
pub mod Samples
mod Examples
use rudp_network_engine.Prelude.{
  ℕ, zero, suc, ◌+◌, ◌-◌, ◌*◌, ◌%◌, ◌^◌, Bool, true, false, List, [], ◌∷◌, ◌++◌, Option, none, some,
  length, set, drop, get_or, min, ltb, leb, ◌==◌, if◌then◌else◌,
}

-- `kRingSize` and `kMaxPending`
abbrev pub ring_size : ℕ
ring_size = 2048

abbrev pub max_pending : ℕ
max_pending = 8192

-- `ConnectionRttTracker`; an entry of `pending` is {PacketId, SendTimeUs}.
pub record Tracker : Type 0 where
  pub pending : List (ℕ × ℕ)
  pub samples_us : List ℕ
  pub sample_times_us : List ℕ
  pub write_index : ℕ
  pub sample_count : ℕ

-- `RecordSend`
unfoldable pub record_send : Tracker → ℕ → ℕ → Tracker
record_send t packet_id send_time_us =
    let pending = t.pending ++ ((packet_id, send_time_us) ∷ []) in
    record t { pending = if ltb max_pending (length pending) then drop 1 pending else pending }

-- The loop that `ConsumeAcked` and `ConsumeNacked` start with.
unfoldable pub drop_older : ℕ → List (ℕ × ℕ) → List (ℕ × ℕ)
drop_older packet_id [] = []
drop_older packet_id (e ∷ rest) =
    let later = drop_older packet_id rest in if ltb e.0 packet_id then later else e ∷ rest

-- `ConsumeAcked` where the front entry is the packet's.
unfoldable pub take_sample : Tracker → ℕ → ℕ → Option ℕ × Tracker
take_sample t now_us send_time_us =
    if ltb now_us send_time_us
    then (none, t)
    else (let rtt_us = min (now_us - send_time_us) (2 ^ 32 - 1) in
        (
          some rtt_us,
          record t {
            samples_us = set t.samples_us t.write_index rtt_us;
            sample_times_us = set t.sample_times_us t.write_index now_us;
            write_index = (t.write_index + 1) % ring_size;
            sample_count = min (t.sample_count + 1) ring_size;
          },
        ))

-- `ConsumeAcked` after its loop.
unfoldable pub consume_front_sample : Tracker → ℕ → ℕ → List (ℕ × ℕ) → Option ℕ × Tracker
consume_front_sample t packet_id now_us [] = (none, record t { pending = [] })
consume_front_sample t packet_id now_us (e ∷ rest) =
    if e.0 == packet_id
    then take_sample (record t { pending = rest }) now_us e.1
    else (none, record t { pending = e ∷ rest })

-- `ConsumeAcked`: the round-trip time, if it measured one, and the tracker after it.
unfoldable pub consume_acked : Tracker → ℕ → ℕ → Option ℕ × Tracker
consume_acked t packet_id now_us =
    consume_front_sample t packet_id now_us (drop_older packet_id t.pending)

-- `ConsumeNacked` after its loop.
unfoldable pub drop_equal : ℕ → List (ℕ × ℕ) → List (ℕ × ℕ)
drop_equal packet_id [] = []
drop_equal packet_id (e ∷ rest) = if e.0 == packet_id then rest else e ∷ rest

-- `ConsumeNacked`
unfoldable pub consume_nacked : Tracker → ℕ → Tracker
consume_nacked t packet_id = record t {
  pending = drop_equal packet_id (drop_older packet_id t.pending);
}
