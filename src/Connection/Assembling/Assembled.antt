-- ===== src/Connection/Assembling/Assembled.antt =====
-- `AssembleOutgoingPackets` as a whole.
use mathlib.Core.Bool.{false≢true}
use rudp_network_engine.Prelude.{
  ℕ, zero, suc, ◌+◌, ◌%◌, max, ◌≡◌, refl, sym, ap, ◌∙◌, Bool, true, false, List, [], ◌∷◌, ◌++◌,
  Option, none, some, length, get_elem?,
}
use rudp_network_engine.Prelude.Int.{ℤ}
use rudp_network_engine.Channel.Building.{OutReadyBunch}
use rudp_network_engine.Connection.{NetChannel, Connection}
use rudp_network_engine.Connection.Packets.{OutReadyPacket}
use rudp_network_engine.Connection.Assembling.{
  Assembly, visit_channel, visit, if_round, for_channels, if_progress, rounds,
}
use rudp_network_engine.Connection.Assembling.Packed.{advance, ArePackets, bunchs_of}
use rudp_network_engine.Connection.Assembling.Rounds.{
  all_kept, AreReady, AreEmpty, HasGoneRound, for_channels-HasGoneRound,
}

module _ {M R : Type 0} where
  visit-empty :
      (channels : List (Option (NetChannel (OutReadyBunch M)))) (k : ℕ) (a : Assembly M R)
      (progress : Bool) (i : ℕ)
      → AreEmpty channels
      → visit a progress i (get_elem? channels k) ≡ (true, progress, a)
  unfolding visit visit_channel
  visit-empty [] k a progress i h = refl
  visit-empty (none ∷ rest) zero a progress i h = refl
  visit-empty (some ch ∷ rest) zero a progress i h = ap (visit_channel a progress i ch) h.0
  visit-empty (x ∷ rest) (suc k) a progress i h = visit-empty rest k a progress i h.1

  -- Where nothing waits, a round changes nothing and makes no progress.
  for_channels-empty :
      (left rr i : ℕ) (progress : Bool) (a : Assembly M R)
      → AreEmpty a.connection.channels
      → for_channels left rr i progress a ≡ (true, progress, a)
  unfolding for_channels
  for_channels-empty zero rr i progress a h = refl
  for_channels-empty (suc left) rr i progress a h =
      let cs = a.connection.channels in
      let k = (rr + i) % length cs in
      ap (if_round (for_channels left rr (i + 1))) (visit-empty cs k a progress k h)
      ∙ for_channels-empty left rr (i + 1) progress a h

  rounds-empty :
      (fuel rr : ℕ) (a : Assembly M R)
      → AreEmpty a.connection.channels
      → rounds fuel rr a ≡ (true, a)
  unfolding rounds
  rounds-empty zero rr a h = refl
  rounds-empty (suc fuel) rr a h =
      ap (if_progress (rounds fuel ((rr + 1) % max 1 (length a.connection.channels))))
        (for_channels-empty (length a.connection.channels) rr 0 false a h)

  if_progress-done :
      (later : Assembly M R → Bool × Assembly M R) (r : Bool × Bool × Assembly M R)
      → r.0 ≡ true
      → later r.2 ≡ (true, r.2)
      → if_progress later r ≡ (true, r.2)
  if_progress-done later (true, true, a) t e = e
  if_progress-done later (true, false, a) t e = refl
  if_progress-done later (false, progress, a) t e = absurd (false≢true t)

  -- Any fuel but none gives what the first round gives.
  rounds-settled :
      (fuel : ℕ) (first : ℤ) (taken : List (OutReadyBunch M)) (a : Assembly M R)
      → HasGoneRound first taken (for_channels (length a.connection.channels) 0 0 false a)
      → rounds (suc fuel) 0 a ≡ (true, (for_channels (length a.connection.channels) 0 0 false a).2)
  unfolding rounds
  rounds-settled fuel first taken a h =
      let count = length a.connection.channels in
      let rr = (0 + 1) % max 1 count in
      if_progress-done (rounds fuel rr) (for_channels count 0 0 false a) h.goes_on
        (rounds-empty fuel rr (for_channels count 0 0 false a).2 h.empty)

  -- The packets `ps` were assembled: the channels are empty, and the ids are used up.
  pub record HasAssembled (c : Connection (OutReadyBunch M) R) (queue ps : List (OutReadyPacket M))
      (r : List (OutReadyPacket M) × Connection (OutReadyBunch M) R) : Type 0 where
    pub queued : r.0 ≡ queue ++ ps
    pub packets : ArePackets c.out_packet_id ps
    pub contents : bunchs_of ps ≡ all_kept c.channels
    pub next_id : r.1.out_packet_id ≡ advance c.out_packet_id (length ps)
    pub empty : AreEmpty r.1.channels

  pub rounds-HasGoneRound :
      (c : Connection (OutReadyBunch M) R)
      → AreReady c.channels
      → HasGoneRound c.out_packet_id (all_kept c.channels) (
          for_channels
            (length c.channels)
            0
            0
            false
            (record { connection = c; packet = none; ready_packets = [] }))
  rounds-HasGoneRound c ready =
      for_channels-HasGoneRound c.out_packet_id []
        (record { connection = c; packet = none; ready_packets = [] }) false [] c.channels 0
        (record { ready = tt; next_id = refl; current = tt; contents = refl }) refl refl tt ready

  -- Where each bunch that waits has at most 1014 bytes and each channel has room for what waits in it,
  -- more than two rounds of the loop `while (progress)` give what two give.
  pub rounds-fuel :
      (fuel : ℕ) (c : Connection (OutReadyBunch M) R)
      → AreReady c.channels
      → rounds (suc (suc fuel)) 0 (record { connection = c; packet = none; ready_packets = [] })
        ≡ rounds 2 0 (record { connection = c; packet = none; ready_packets = [] })
  rounds-fuel fuel c ready =
      let start : Assembly M R = record { connection = c; packet = none; ready_packets = [] } in
      let h = rounds-HasGoneRound c ready in
      rounds-settled (suc fuel) c.out_packet_id (all_kept c.channels) start h
      ∙ sym (rounds-settled 1 c.out_packet_id (all_kept c.channels) start h)
