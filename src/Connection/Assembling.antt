-- ===== src/Connection/Assembling.antt =====
-- `AssembleOutgoingPackets`, `IsRequireAssembleBunch` and `UpdatePacketHeader` of
-- Project/Network/src/connection/NetConnection.cpp: the bunches that the channels have ready, put into
-- packets. The queue of packets of the connection is passed along.
pub mod Packed
pub mod Draining
pub mod Rounds
pub mod Assembled
use rudp_network_engine.Prelude.{
  ℕ, zero, suc, ◌+◌, ◌-◌, ◌%◌, ◌^◌, max, Bool, true, false, not, ◌&&◌, ◌||◌, List, [], ◌∷◌, ◌++◌,
  Option, none, some, length, set, get_elem?, ltb, if◌then◌else◌,
}
use rudp_network_engine.Prelude.Int.{ℤ, pos, negsuc, ◌+ℤ◌}
use rudp_network_engine.Sequence.Notify.{Notify, commit_and_increment_out_seq}
use rudp_network_engine.Rtt.{record_send}
use rudp_network_engine.Channel.Record.{push_packet_id, push_channel_record, to_uint32}
use rudp_network_engine.Channel.Building.{OutReadyBunch, is_header_only}
use rudp_network_engine.Channel.Sending.{add_un_acked_out_bunch}
use rudp_network_engine.Connection.{NetChannel, Connection, close}
use rudp_network_engine.Connection.Packets.{
  OutReadyPacket, packet_max_size, build_start, build_end, packet_sealed, append,
}

-- `int32_t` of a `uint32_t`.
abbrev pub to_int32 : ℕ → ℤ
to_int32 n = if ltb n (2 ^ 31) then pos n else negsuc (2 ^ 32 - 1 - n)

module _ (M R : Type 0) where
  -- The local variables `Packet` and `readyPackets`, with the connection.
  pub record Assembly : Type 0 where
    pub connection : Connection (OutReadyBunch M) R
    pub packet : Option (OutReadyPacket M)
    pub ready_packets : List (OutReadyPacket M)

module _ {M : Type 0} where
  -- A bunch that `AssembleOutgoingPackets` gives up.
  unfoldable pub is_discarded : OutReadyBunch M → Bool
  is_discarded b = is_header_only b || ltb packet_max_size b.total_size

  unfoldable pub has_ready : Option (NetChannel (OutReadyBunch M)) → Bool
  has_ready none = false
  has_ready (some ch) = ch.b_open && elim ch.sending.out_bunch_queue [ [] ↦ false | _ ∷ _ ↦ true ]

  -- `IsRequireAssembleBunch`
  unfoldable pub is_require_assemble_bunch : List (Option (NetChannel (OutReadyBunch M))) → Bool
  is_require_assemble_bunch [] = false
  is_require_assemble_bunch (ch ∷ rest) = has_ready ch || is_require_assemble_bunch rest

module _ {M R : Type 0} where
  -- `createNewPacket`
  unfoldable pub create_new_packet :
      Connection (OutReadyBunch M) R → OutReadyPacket M × Connection (OutReadyBunch M) R
  create_new_packet c = (
    record build_start { out_packet_id = to_uint32 c.out_packet_id },
    record c { channel_record = push_packet_id c.channel_record c.out_packet_id },
  )

  -- What makes a packet final: `OutPacketId++`, the seal, and the place among `readyPackets`.
  unfoldable pub finish : Assembly M R → OutReadyPacket M → Assembly M R
  finish a p = record a {
    connection = record a.connection { out_packet_id = a.connection.out_packet_id +ℤ pos 1 };
    ready_packets = a.ready_packets ++ (packet_sealed p ∷ []);
  }

  -- The packet that a bunch of the size given goes into: the current one, or a new one where there is
  -- none or the bunch does not fit.
  unfoldable pub next_packet :
      Assembly M R → ℕ → Option (OutReadyPacket M) → OutReadyPacket M × Assembly M R
  next_packet a require_size none =
      let t = create_new_packet a.connection in
      if ltb packet_max_size ((t.0.total_size + require_size) % 2 ^ 32)
      then (let full = finish (record a { connection = t.1 }) t.0 in
          let u = create_new_packet full.connection in (u.0, record full { connection = u.1 }))
      else (t.0, record a { connection = t.1 })
  next_packet a require_size (some p) =
      if ltb packet_max_size ((p.total_size + require_size) % 2 ^ 32)
      then (let full = finish a p in
          let u = create_new_packet full.connection in (u.0, record full { connection = u.1 }))
      else (p, a)

  -- The bunch `b` of channel `i` goes into a packet. The result says whether the channel took it among
  -- those that are not acknowledged; where it did not, the connection is closed.
  unfoldable pub place :
      Assembly M R
      → ℕ
      → NetChannel (OutReadyBunch M)
      → OutReadyBunch M
      → Bool × NetChannel (OutReadyBunch M) × Assembly M R
  place a i ch b =
      let (p, t) = next_packet a b.total_size a.packet in
      let c = t.connection in
      let d = record c {
        channel_record = push_channel_record c.channel_record (to_int32 p.out_packet_id) (pos i);
      } in
      let added = add_un_acked_out_bunch ch.sending p.out_packet_id b in
      (
        added.0,
        record ch { sending = added.1 },
        (if added.0
            then record t { connection = d; packet = some (append p b).1 }
            else record t { connection = close d; packet = some p }),
      )

  -- What is left of a loop, where the function goes on.
  abbrev pub if_on :
      (NetChannel (OutReadyBunch M)
        → Assembly M R
        → Bool × NetChannel (OutReadyBunch M) × Assembly M R)
      → Bool × NetChannel (OutReadyBunch M) × Assembly M R
      → Bool × NetChannel (OutReadyBunch M) × Assembly M R
  if_on later (true, ch, a) = later ch a
  if_on later (false, ch, a) = (false, ch, a)

  -- The loop on `DequeueReadyBunch` of channel `i`, over what is in its queue: whether the function
  -- goes on, and the channel, which is put back when the loop is left.
  unfoldable pub drain :
      Assembly M R
      → ℕ
      → NetChannel (OutReadyBunch M)
      → List (OutReadyBunch M)
      → Bool × NetChannel (OutReadyBunch M) × Assembly M R
  drain a i ch [] = (true, ch, a)
  drain a i ch (b ∷ queue) =
      let left = record ch { sending = record ch.sending { out_bunch_queue = queue } } in
      if_on (λ ch' a'. drain a' i ch' queue)
        (if is_discarded b then (true, left, a) else place a i left b)

  abbrev pub put_back : ℕ → Bool × NetChannel (OutReadyBunch M) × Assembly M R → Bool × Assembly M R
  put_back i (goes_on, ch, a) = (
    goes_on,
    record a {
      connection = record a.connection { channels = set a.connection.channels i (some ch) };
    },
  )

  -- A channel with its queue: whether the function goes on, and `progress`.
  unfoldable pub visit_channel :
      Assembly M R
      → Bool
      → ℕ
      → NetChannel (OutReadyBunch M)
      → List (OutReadyBunch M)
      → Bool × Bool × Assembly M R
  visit_channel a progress i ch [] = (true, progress, a)
  visit_channel a progress i ch (b ∷ queue) =
      let r = put_back i (drain a i ch (b ∷ queue)) in (r.0, true, r.1)

  unfoldable pub visit :
      Assembly M R
      → Bool
      → ℕ
      → Option (Option (NetChannel (OutReadyBunch M)))
      → Bool × Bool × Assembly M R
  visit a progress i none = (true, progress, a)
  visit a progress i (some none) = (true, progress, a)
  visit a progress i (some (some ch)) = visit_channel a progress i ch ch.sending.out_bunch_queue

  abbrev pub if_round :
      (Bool → Assembly M R → Bool × Bool × Assembly M R)
      → Bool × Bool × Assembly M R
      → Bool × Bool × Assembly M R
  if_round later (true, progress, a) = later progress a
  if_round later (false, progress, a) = (false, progress, a)

  -- The loop `for` over the channels, with `left` of them to go, from the place `rr` on.
  unfoldable pub for_channels : ℕ → ℕ → ℕ → Bool → Assembly M R → Bool × Bool × Assembly M R
  for_channels zero rr i progress a = (true, progress, a)
  for_channels (suc left) rr i progress a =
      let k = (rr + i) % length a.connection.channels in
      let visited = visit a progress k (get_elem? a.connection.channels k) in
      if_round (for_channels left rr (i + 1)) visited

  abbrev pub if_progress :
      (Assembly M R → Bool × Assembly M R) → Bool × Bool × Assembly M R → Bool × Assembly M R
  if_progress later (true, true, a) = later a
  if_progress later (true, false, a) = (true, a)
  if_progress later (false, progress, a) = (false, a)

  -- The loop `while (progress)`, on fuel: two rounds are enough.
  unfoldable pub rounds : ℕ → ℕ → Assembly M R → Bool × Assembly M R
  rounds zero rr a = (true, a)
  rounds (suc fuel) rr a =
      let count = length a.connection.channels in
      let round = for_channels count rr 0 false a in
      if_progress (rounds fuel ((rr + 1) % max 1 count)) round

  -- The end: the last packet is finished if it has a bunch.
  unfoldable pub finish_last : Assembly M R → Option (OutReadyPacket M) → Assembly M R
  finish_last a none = a
  finish_last a (some p) = elim p.bunchs [ [] ↦ a | _ ∷ _ ↦ finish a p ]

  -- A packet without a bunch, which keeps the connection alive.
  unfoldable pub keep_alive :
      List (OutReadyPacket M)
      → Connection (OutReadyBunch M) R
      → List (OutReadyPacket M) × Connection (OutReadyBunch M) R
  keep_alive queue c =
      let t = create_new_packet c in
      (queue ++ (packet_sealed t.0 ∷ []), record t.1 { out_packet_id = c.out_packet_id +ℤ pos 1 })

  -- The part of `AssembleOutgoingPackets` after the test for a ready bunch.
  unfoldable pub assemble_bunches :
      List (OutReadyPacket M)
      → Connection (OutReadyBunch M) R
      → List (OutReadyPacket M) × Connection (OutReadyBunch M) R
  assemble_bunches queue c =
      let r = rounds 2 0 (record { connection = c; packet = none; ready_packets = [] }) in
      let a = finish_last r.1 r.1.packet in
      if r.0 then (queue ++ a.ready_packets, a.connection) else (queue, r.1.connection)

  -- `AssembleOutgoingPackets`; `late` says that there is a driver and its keep-alive time went by.
  unfoldable pub assemble_outgoing_packets :
      Bool
      → List (OutReadyPacket M)
      → Connection (OutReadyBunch M) R
      → List (OutReadyPacket M) × Connection (OutReadyBunch M) R
  assemble_outgoing_packets late queue c =
      if is_require_assemble_bunch c.channels
      then assemble_bunches queue c
      else (if late then keep_alive queue c else (queue, c))

  -- `UpdatePacketHeader`, where the header was written into `bytes` and left `notify` behind.
  unfoldable pub update_packet_header :
      Connection (OutReadyBunch M) R
      → OutReadyPacket M
      → Notify × List ℕ
      → ℕ
      → OutReadyPacket M × Connection (OutReadyBunch M) R
  update_packet_header c p (notify, bytes) now = (
    build_end p bytes now,
    record c {
      rtt_tracker = record_send c.rtt_tracker p.out_packet_id now;
      packet_notify = (commit_and_increment_out_seq notify).1;
    },
  )
