-- ===== src/Connection/Assembling/Draining.antt =====
-- One channel: `createNewPacket`, `Append` and the loop on `DequeueReadyBunch`.
use mathlib.Core.List.{append_assoc, append-nil}
use rudp_network_engine.Prelude.{
  ℕ, suc, ◌+◌, ◌%◌, ◌^◌, ◌≤◌, ◌<◌, ◌≡◌, refl, sym, ap, ◌∙◌, subst, Bool, true, false, ◌||◌, List,
  [], ◌∷◌, ◌++◌, Option, none, some, length, length-append, ltb, leb, arith, Bool-cases, inl, inr,
}
use rudp_network_engine.Prelude.Int.{ℤ, pos, ◌+ℤ◌}
use rudp_network_engine.Channel.Record.{to_uint32}
use rudp_network_engine.Channel.Building.{OutReadyBunch}
use rudp_network_engine.Channel.Sending.{UnAcked, push_at, add_un_acked_out_bunch}
use rudp_network_engine.Connection.{NetChannel}
use rudp_network_engine.Connection.Packets.{
  OutReadyPacket, push, packet_sealed, build_begin, build_start, append,
}
use rudp_network_engine.Connection.Assembling.{
  Assembly, create_new_packet, finish, next_packet, place, is_discarded, drain,
}
use rudp_network_engine.Connection.Assembling.Packed.{
  advance, advance-suc, sizes-snoc, IsBegun, IsPacket, ArePackets, ArePackets-snoc, bunchs_of,
  bunchs_of-snoc, bunchs_in, kept, AreSmall, packet_sealed-fields, packet_sealed-IsPacket,
  IsCurrent, IsPacked, IsOpen,
}

module _ {M : Type 0} where
  build_start-IsBegun : IsBegun {M = M} build_start
  unfolding build_start build_begin
  build_start-IsBegun = record { plain = refl; total = refl }

  -- A packet with room takes the bunch.
  append-IsPacket :
      (p : OutReadyPacket M) (b : OutReadyBunch M)
      → IsBegun p
      → p.total_size + b.total_size ≤ 1024
      → IsPacket (append p b).1
        × ((append p b).1.out_packet_id ≡ p.out_packet_id)
        × ((append p b).1.bunchs ≡ p.bunchs ++ (b ∷ []))
  unfolding append push
  append-IsPacket p b h k =
      let fits : (ltb 1024 b.total_size || ltb 1024 ((p.total_size + b.total_size) % 2 ^ 32))
          ≡ false =
        ground (arith, k) in
      rw (fits, h.plain)
        (
          record {
            begun = record {
              plain = refl;
              total = omega (arith, h.total, k, sizes-snoc p.bunchs b);
            };
            within = omega (arith, k);
            some_bunch = omega (arith, length-append p.bunchs (b ∷ []));
          },
          refl,
          refl,
        )

  push_at-length :
      (key : ℕ) (b : OutReadyBunch M) (m : UnAcked (OutReadyBunch M))
      → length (push_at key b m) ≤ length m + 1
  unfolding push_at
  push_at-length key b [] = omega arith
  push_at-length key b (e ∷ rest) = ground (arith, push_at-length key b rest)

  abbrev waits_with :
      NetChannel (OutReadyBunch M) → List (OutReadyBunch M) → NetChannel (OutReadyBunch M)
  waits_with ch queue = record ch { sending = record ch.sending { out_bunch_queue = queue } }

module _ {M R : Type 0} where
  pub finished :
      (first : ℤ) (a : Assembly M R) (p : OutReadyPacket M)
      → ArePackets first a.ready_packets
      → a.connection.out_packet_id ≡ advance first (length a.ready_packets)
      → IsPacket p
      → p.out_packet_id ≡ to_uint32 a.connection.out_packet_id
      → ArePackets first (finish a p).ready_packets
        × ((finish a p).connection.out_packet_id
            ≡ advance first (length (finish a p).ready_packets))
        × (bunchs_of (finish a p).ready_packets ≡ bunchs_of a.ready_packets ++ p.bunchs)
  unfolding finish
  finished first a p h e k n =
      let sealed = packet_sealed-fields p in
      let longer : suc (length a.ready_packets)
          ≡ length (a.ready_packets ++ (packet_sealed p ∷ [])) =
        omega (arith, length-append a.ready_packets (packet_sealed p ∷ [])) in
      (
        ArePackets-snoc first a.ready_packets (packet_sealed p) h (packet_sealed-IsPacket p k)
            (sealed.3 ∙ n ∙ ap to_uint32 e),
        ap (λ i. i +ℤ pos 1) e
            ∙ advance-suc first (length a.ready_packets)
            ∙ ap (advance first) longer,
        bunchs_of-snoc a.ready_packets (packet_sealed p)
            ∙ ap (λ bs. bunchs_of a.ready_packets ++ bs) sealed.2,
      )

  next_packet-IsOpen :
      (first : ℤ) (taken : List (OutReadyBunch M)) (a : Assembly M R) (require_size : ℕ)
      (packet : Option (OutReadyPacket M))
      → require_size ≤ 1014
      → ArePackets first a.ready_packets
      → a.connection.out_packet_id ≡ advance first (length a.ready_packets)
      → IsCurrent a.connection.out_packet_id packet
      → bunchs_of a.ready_packets ++ bunchs_in packet ≡ taken
      → IsOpen first taken require_size a.connection.channels
          (next_packet a require_size packet).0
          (next_packet a require_size packet).1
  unfolding next_packet create_new_packet build_start build_begin finish
  next_packet-IsOpen first taken a require_size none small h e c k =
      let fits : ltb 1024 ((10 + require_size) % 2 ^ 32) ≡ false = ground (arith, small) in
      rw (fits) (record {
        ready = h;
        next_id = e;
        begun = record { plain = refl; total = refl };
        fits = omega (arith, small);
        numbered = refl;
        contents = k;
        same_channels = refl;
      })
  next_packet-IsOpen first taken a require_size (some p) small h e c k =
      elim (Bool-cases (ltb 1024 ((p.total_size + require_size) % 2 ^ 32))) [
        | inl full ↦
            let f = finished first a p h e c.0 c.1 in
            rw (full) (record {
              ready = f.0;
              next_id = f.1;
              begun = record { plain = refl; total = refl };
              fits = omega (arith, small);
              numbered = refl;
              contents = append-nil (bunchs_of (finish a p).ready_packets) ∙ f.2 ∙ k;
              same_channels = refl;
            })
        | inr room ↦ rw (room) (record {
          ready = h;
          next_id = e;
          begun = c.0.begun;
          fits = ground (arith, room, small, c.0.within);
          numbered = c.1;
          contents = k;
          same_channels = refl;
        })
      ]

  -- What a turn of the loop on the queue of a channel leaves: the channel `ch'` waits with `queue`, and
  -- has at most `n` entries that are not acknowledged.
  pub record HasPlaced (first : ℤ) (taken : List (OutReadyBunch M))
      (channels : List (Option (NetChannel (OutReadyBunch M)))) (queue : List (OutReadyBunch M))
      (n : ℕ) (r : Bool × NetChannel (OutReadyBunch M) × Assembly M R) : Type 0 where
    pub goes_on : r.0 ≡ true
    pub packed : IsPacked first taken r.2
    pub left : r.1.sending.out_bunch_queue ≡ queue
    pub few : length r.1.sending.out_un_acked_bunches ≤ n
    pub same_channels : r.2.connection.channels ≡ channels

  place-HasPlaced :
      (first : ℤ) (taken : List (OutReadyBunch M)) (a : Assembly M R) (i : ℕ)
      (ch : NetChannel (OutReadyBunch M)) (b : OutReadyBunch M) (n : ℕ)
      → IsPacked first taken a
      → b.total_size ≤ 1014
      → length ch.sending.out_un_acked_bunches ≤ n
      → n < 512
      → HasPlaced first
          (taken ++ (b ∷ []))
          a.connection.channels
          ch.sending.out_bunch_queue
          (n + 1)
          (place a i ch b)
  unfolding place add_un_acked_out_bunch
  place-HasPlaced first taken a i ch b n h small few lt =
      let (p, t) = next_packet a b.total_size a.packet in
      let o =
        next_packet-IsOpen first taken a b.total_size a.packet small h.ready h.next_id h.current
          h.contents in
      let put = append-IsPacket p b o.begun o.fits in
      let room : leb 512 (length ch.sending.out_un_acked_bunches) ≡ false =
        ground (arith, few, lt) in
      rw (room) (record {
        goes_on = refl;
        packed = record {
          ready = o.ready;
          next_id = o.next_id;
          current = (put.0, put.1 ∙ o.numbered);
          contents =
              ap (λ bs. bunchs_of t.ready_packets ++ bs) put.2
              ∙ sym (append_assoc (bunchs_of t.ready_packets) p.bunchs (b ∷ []))
              ∙ ap (λ bs. bs ++ (b ∷ [])) o.contents;
        };
        left = refl;
        few = omega (arith, few, push_at-length p.out_packet_id b ch.sending.out_un_acked_bunches);
        same_channels = o.same_channels;
      })

  drain-discarded :
      (a : Assembly M R) (i : ℕ) (ch : NetChannel (OutReadyBunch M)) (b : OutReadyBunch M)
      (queue : List (OutReadyBunch M))
      → is_discarded b ≡ true
      → drain a i ch (b ∷ queue) ≡ drain a i (waits_with ch queue) queue
  unfolding drain
  drain-discarded a i ch b queue t = rw (t) refl

  drain-placed :
      (a : Assembly M R) (i : ℕ) (ch : NetChannel (OutReadyBunch M)) (b : OutReadyBunch M)
      (queue : List (OutReadyBunch M))
      → is_discarded b ≡ false
      → (place a i (waits_with ch queue) b).0 ≡ true
      → drain a i ch (b ∷ queue)
        ≡ (let r = place a i (waits_with ch queue) b in drain r.2 i r.1 queue)
  unfolding drain
  drain-placed a i ch b queue f e = rw (f) (rw (e) refl)

  -- A channel with room for what it has ready: all of it that is not given up goes into the packets.
  pub drain-HasPlaced :
      (first : ℤ) (taken : List (OutReadyBunch M)) (a : Assembly M R) (i : ℕ)
      (ch : NetChannel (OutReadyBunch M)) (queue : List (OutReadyBunch M)) (n : ℕ)
      → IsPacked first taken a
      → AreSmall queue
      → ch.sending.out_bunch_queue ≡ queue
      → length ch.sending.out_un_acked_bunches ≤ n
      → n + length queue ≤ 512
      → HasPlaced first
          (taken ++ kept queue)
          a.connection.channels
          []
          (n + length queue)
          (drain a i ch queue)
  drain-HasPlaced first taken a i ch [] n h small e few room =
      unfold drain in
      record {
        goes_on = refl;
        packed = subst (λ bs. IsPacked first bs a) (sym (append-nil taken)) h;
        left = e;
        few = omega (arith, few);
        same_channels = refl;
      }
  drain-HasPlaced first taken a i ch (b ∷ queue) n h small e few room =
      let left = waits_with ch queue in
      elim (Bool-cases (is_discarded b)) [
        | inl t ↦
            let later =
              drain-HasPlaced first taken a i left queue n h small.1 refl few (omega arith) in
            rw (t, drain-discarded a i ch b queue t)
              (record {
                goes_on = later.goes_on;
                packed = later.packed;
                left = later.left;
                few = omega (arith, later.few);
                same_channels = later.same_channels;
              })
        | inr f ↦
            let r = place a i left b in
            let now = place-HasPlaced first taken a i left b n h small.0 few (omega arith) in
            let later =
              drain-HasPlaced first (taken ++ (b ∷ [])) r.2 i r.1 queue (n + 1) now.packed small.1
                now.left now.few (omega arith) in
            rw (f, drain-placed a i ch b queue f now.goes_on)
              (record {
                goes_on = later.goes_on;
                packed =
                    subst (λ bs. IsPacked first bs (drain r.2 i r.1 queue).2)
                      (append_assoc taken (b ∷ []) (kept queue)) later.packed;
                left = later.left;
                few = omega (arith, later.few);
                same_channels = later.same_channels ∙ now.same_channels;
              })
      ]
