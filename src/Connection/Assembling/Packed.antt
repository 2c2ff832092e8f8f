-- ===== src/Connection/Assembling/Packed.antt =====
-- The packets that the bunches of a channel are put into.
use mathlib.Core.List.{append_assoc, append-nil}
use rudp_network_engine.Prelude.{
  ℕ, zero, suc, ◌+◌, ◌≤◌, ◌<◌, ◌≡◌, refl, sym, ap, ◌∙◌, subst, false, List, [], ◌∷◌, ◌++◌, Option,
  none, some, length, if◌then◌else◌, arith, Bool-cases, inl, inr,
}
use rudp_network_engine.Prelude.Int.{ℤ, pos, ◌+ℤ◌}
use rudp_network_engine.Channel.Record.{to_uint32}
use rudp_network_engine.Channel.Building.{OutReadyBunch}
use rudp_network_engine.Connection.{NetChannel}
use rudp_network_engine.Connection.Packets.{OutReadyPacket, packet_sealed}
use rudp_network_engine.Connection.Assembling.{Assembly, is_discarded}

-- The id after `n` packets from `i` on.
abbrev pub advance : ℤ → ℕ → ℤ
advance i zero = i
advance i (suc n) = advance (i +ℤ pos 1) n

pub advance-suc : (i : ℤ) (n : ℕ) → advance i n +ℤ pos 1 ≡ advance i (suc n)
advance-suc i zero = refl
advance-suc i (suc n) = advance-suc (i +ℤ pos 1) n

module _ {M : Type 0} where
  abbrev pub sizes : List (OutReadyBunch M) → ℕ
  sizes [] = 0
  sizes (b ∷ bs) = b.total_size + sizes bs

  pub sizes-snoc :
      (bs : List (OutReadyBunch M)) (b : OutReadyBunch M)
      → sizes (bs ++ (b ∷ [])) ≡ sizes bs + b.total_size
  sizes-snoc [] b = omega arith
  sizes-snoc (x ∷ bs) b = omega (arith, sizes-snoc bs b)

  -- A packet that is being filled, or about to be.
  pub record IsBegun (p : OutReadyPacket M) : Type 0 where
    pub plain : p.b_processor_packet ≡ false
    pub total : p.total_size ≡ 10 + sizes p.bunchs

  -- A packet with a bunch at least, whose size is that of its header and bunches, at most 1024 bytes.
  pub record IsPacket (p : OutReadyPacket M) : Type 0 where
    pub begun : IsBegun p
    pub within : p.total_size ≤ 1024
    pub some_bunch : 0 < length p.bunchs

  -- Packets of this kind with the ids from `first` on.
  abbrev pub ArePackets : ℤ → List (OutReadyPacket M) → Type 0
  ArePackets first [] = Unit {0}
  ArePackets first (p ∷ ps) =
      IsPacket p × (p.out_packet_id ≡ to_uint32 first) × ArePackets (first +ℤ pos 1) ps

  pub ArePackets-snoc :
      (first : ℤ) (ps : List (OutReadyPacket M)) (p : OutReadyPacket M)
      → ArePackets first ps
      → IsPacket p
      → p.out_packet_id ≡ to_uint32 (advance first (length ps))
      → ArePackets first (ps ++ (p ∷ []))
  ArePackets-snoc first [] p h k e = (k, e, tt)
  ArePackets-snoc first (x ∷ ps) p h k e = (h.0, h.1, ArePackets-snoc (first +ℤ pos 1) ps p h.2 k e)

  abbrev pub bunchs_of : List (OutReadyPacket M) → List (OutReadyBunch M)
  bunchs_of [] = []
  bunchs_of (p ∷ ps) = p.bunchs ++ bunchs_of ps

  pub bunchs_of-snoc :
      (ps : List (OutReadyPacket M)) (p : OutReadyPacket M)
      → bunchs_of (ps ++ (p ∷ [])) ≡ bunchs_of ps ++ p.bunchs
  bunchs_of-snoc [] p = append-nil p.bunchs
  bunchs_of-snoc (x ∷ ps) p =
      ap (λ t. x.bunchs ++ t) (bunchs_of-snoc ps p)
      ∙ sym (append_assoc x.bunchs (bunchs_of ps) p.bunchs)

  abbrev pub bunchs_in : Option (OutReadyPacket M) → List (OutReadyBunch M)
  bunchs_in none = []
  bunchs_in (some p) = p.bunchs

  -- The bunches that are not given up.
  abbrev pub kept : List (OutReadyBunch M) → List (OutReadyBunch M)
  kept [] = []
  kept (b ∷ bs) = if is_discarded b then kept bs else b ∷ kept bs

  -- Each fits into a packet of its own.
  abbrev pub AreSmall : List (OutReadyBunch M) → Type 0
  AreSmall [] = Unit {0}
  AreSmall (b ∷ bs) = (b.total_size ≤ 1014) × AreSmall bs

  pub packet_sealed-fields :
      (p : OutReadyPacket M)
      → ((packet_sealed p).b_processor_packet ≡ p.b_processor_packet)
        × ((packet_sealed p).total_size ≡ p.total_size)
        × ((packet_sealed p).bunchs ≡ p.bunchs)
        × ((packet_sealed p).out_packet_id ≡ p.out_packet_id)
  unfolding packet_sealed
  packet_sealed-fields p = elim (Bool-cases p.dirty_flag) [
    | inl t ↦ rw (t) (refl, refl, refl, refl)
    | inr f ↦ rw (f) (refl, refl, refl, refl)
  ]

  pub packet_sealed-IsPacket : (p : OutReadyPacket M) → IsPacket p → IsPacket (packet_sealed p)
  packet_sealed-IsPacket p h =
      let f = packet_sealed-fields p in
      record {
        begun = record {
          plain = f.0 ∙ h.begun.plain;
          total = f.1 ∙ h.begun.total ∙ ap (λ bs. 10 + sizes bs) (sym f.2);
        };
        within = omega (arith, f.1, h.within);
        some_bunch = subst (λ bs. 0 < length bs) (sym f.2) h.some_bunch;
      }

  abbrev pub IsCurrent : ℤ → Option (OutReadyPacket M) → Type 0
  IsCurrent out none = Unit {0}
  IsCurrent out (some p) = IsPacket p × (p.out_packet_id ≡ to_uint32 out)

module _ {M R : Type 0} where
  -- The bunches `taken` are in the packets, in order.
  pub record IsPacked (first : ℤ) (taken : List (OutReadyBunch M)) (a : Assembly M R) : Type 0 where
    pub ready : ArePackets first a.ready_packets
    pub next_id : a.connection.out_packet_id ≡ advance first (length a.ready_packets)
    pub current : IsCurrent a.connection.out_packet_id a.packet
    pub contents : bunchs_of a.ready_packets ++ bunchs_in a.packet ≡ taken

  -- The state where the packet `p` is about to take a bunch of the size given.
  pub record IsOpen (first : ℤ) (taken : List (OutReadyBunch M)) (require_size : ℕ)
      (channels : List (Option (NetChannel (OutReadyBunch M)))) (p : OutReadyPacket M)
      (a : Assembly M R) : Type 0 where
    pub ready : ArePackets first a.ready_packets
    pub next_id : a.connection.out_packet_id ≡ advance first (length a.ready_packets)
    pub begun : IsBegun p
    pub fits : p.total_size + require_size ≤ 1024
    pub numbered : p.out_packet_id ≡ to_uint32 a.connection.out_packet_id
    pub contents : bunchs_of a.ready_packets ++ p.bunchs ≡ taken
    pub same_channels : a.connection.channels ≡ channels
