-- ===== src/Connection/Packets/Views.antt =====
-- The assertion of `PacketSealed`: the views of a packet have its size in total.
use rudp_network_engine.Prelude.{
  ℕ, ◌+◌, ◌%◌, ◌^◌, ◌≤◌, ◌≡◌, refl, sym, ap, true, false, ◌||◌, List, [], ◌∷◌, ◌++◌, map, ltb,
  arith, Bool-cases, inl, inr,
}
use rudp_network_engine.Channel.Building.{OutReadyBunch}
use rudp_network_engine.Connection.Packets.{
  PacketBufferView, message, OutReadyPacket, build_begin, push, bunch_views, packet_sealed,
  build_start, append, view_size, views_size,
}

module _ {M : Type 0} where
  -- `Append` with one bunch after the other; a bunch that does not fit is left out.
  abbrev pub append_all : OutReadyPacket M → List (OutReadyBunch M) → OutReadyPacket M
  append_all p [] = p
  append_all p (b ∷ bs) = append_all (append p b).1 bs

module _ {M : Type 0} (size : M → ℕ) where
  abbrev pub total : List M → ℕ
  total [] = 0
  total (m ∷ ms) = size m + total ms

  -- The size that the builder gives a bunch.
  abbrev pub IsSized : OutReadyBunch M → Type 0
  IsSized b = b.total_size ≡ b.header_size + total b.messages

  abbrev pub AreSized : List (OutReadyBunch M) → Type 0
  AreSized [] = Unit {0}
  AreSized (b ∷ bs) = IsSized b × AreSized bs

  views_size-append :
      (xs ys : List (PacketBufferView M))
      → views_size size (xs ++ ys) ≡ views_size size xs + views_size size ys
  unfolding views_size
  views_size-append [] ys = omega arith
  views_size-append (x ∷ xs) ys = omega (arith, views_size-append xs ys)

  views_size-messages : (ms : List M) → views_size size (map message ms) ≡ total ms
  unfolding views_size view_size
  views_size-messages [] = refl
  views_size-messages (m ∷ ms) = ap (λ n. size m + n) (views_size-messages ms)

  bunch_views-snoc :
      (bs : List (OutReadyBunch M)) (b : OutReadyBunch M)
      → IsSized b
      → views_size size (bunch_views (bs ++ (b ∷ [])))
        ≡ views_size size (bunch_views bs) + b.total_size
  unfolding bunch_views views_size view_size
  bunch_views-snoc [] b h =
      omega
        (arith, h, views_size-append (map message b.messages) [], views_size-messages b.messages)
  bunch_views-snoc (x ∷ bs) b h = omega (
    arith,
    views_size-append (map message x.messages) (bunch_views (bs ++ (b ∷ []))),
    views_size-append (map message x.messages) (bunch_views bs),
    bunch_views-snoc bs b h,
  )

  record IsFilled (p : OutReadyPacket M) : Type 0 where
    plain : p.b_processor_packet ≡ false
    dirty : p.dirty_flag ≡ true
    sum : p.total_size ≡ p.header_size + views_size size (bunch_views p.bunchs)
    within : p.total_size ≤ 1024

  build_start-IsFilled : IsFilled build_start
  unfolding build_start build_begin bunch_views views_size
  build_start-IsFilled = record { plain = refl; dirty = refl; sum = refl; within = omega arith }

  append-IsFilled :
      (p : OutReadyPacket M) (b : OutReadyBunch M)
      → IsFilled p
      → IsSized b
      → IsFilled (append p b).1
  unfolding append push
  append-IsFilled p b h sized =
      elim (Bool-cases
        (ltb 1024 b.total_size || ltb 1024 ((p.total_size + b.total_size) % 2 ^ 32))) [
          | inl t ↦ rw (t) h
          | inr f ↦
              rw (f, h.plain)
                (record {
                  plain = refl;
                  dirty = refl;
                  sum = ground (arith, f, h.sum, h.within, bunch_views-snoc p.bunchs b sized);
                  within = ground (arith, f);
                })
        ]

  append_all-IsFilled :
      (p : OutReadyPacket M) (bs : List (OutReadyBunch M))
      → IsFilled p
      → AreSized bs
      → IsFilled (append_all p bs)
  append_all-IsFilled p [] h sized = h
  append_all-IsFilled p (b ∷ bs) h sized =
      append_all-IsFilled (append p b).1 bs (append-IsFilled p b h sized.0) sized.1

  -- Whatever bunches are offered to a new packet, if the size of each is that of its header and its
  -- messages: the packet has at most 1024 bytes, and the views that `PacketSealed` makes have in total
  -- the size that the packet counted.
  pub packet_sealed-views :
      (bs : List (OutReadyBunch M))
      → AreSized bs
      → (views_size size (packet_sealed (append_all build_start bs)).buffer_views
          ≡ (append_all build_start bs).total_size)
        × ((append_all build_start bs).total_size ≤ 1024)
  unfolding packet_sealed views_size view_size
  packet_sealed-views bs sized =
      let h = append_all-IsFilled build_start bs build_start-IsFilled sized in
      (rw (h.dirty, h.plain) (sym h.sum), h.within)
