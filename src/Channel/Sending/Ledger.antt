-- ===== src/Channel/Sending/Ledger.antt =====
-- The bunches that a channel took over: those in its queue, in the builder's and among the bunches of a
-- packet that is not settled, those acknowledged and those given up.
use mathlib.Core.List.{append_assoc, append-nil}
use rudp_network_engine.Prelude.{
  ℕ, ◌+◌, ◌≡◌, refl, Bool, true, List, [], ◌∷◌, ◌++◌, some, length, leb, if◌then◌else◌, arith,
  Bool-cases, ◌∙◌, inl, inr, subst,
}
use rudp_network_engine.Channel.Sending.{
  SendState, UnAcked, push_at, lookup, erase, add_un_acked_out_bunch, acked, push_front_reversed,
  nacked, push_all, force_retransmit_all_un_acked, dequeue_front, dequeue_ready_bunch, move_ready,
  tick_flush, clear,
}

module _ {B : Type 0} where
  -- The number of bunches that pass a test.
  abbrev pub countp : (B → Bool) → List B → ℕ
  countp p [] = 0
  countp p (b ∷ bs) = (if p b then 1 else 0) + countp p bs

  abbrev pub bunches : UnAcked B → List B
  bunches [] = []
  bunches (e ∷ rest) = e.1 ++ bunches rest

  -- All that the channel holds.
  abbrev pub held : (B → Bool) → SendState B → ℕ
  held p s =
      countp p s.out_bunch_queue
      + countp p (bunches s.out_un_acked_bunches)
      + countp p s.queued_out_bunch

  pub countp-append :
      (p : B → Bool) (xs ys : List B) → countp p (xs ++ ys) ≡ countp p xs + countp p ys
  countp-append p [] ys = omega arith
  countp-append p (x ∷ xs) ys = omega (arith, countp-append p xs ys)

  push_front_reversed-append : (xs queue : List B) → push_front_reversed xs queue ≡ xs ++ queue
  unfolding push_front_reversed
  push_front_reversed-append [] queue = refl
  push_front_reversed-append (x ∷ xs) queue = rw (push_front_reversed-append xs queue)

  push_all-append : (m : UnAcked B) (queue : List B) → push_all m queue ≡ bunches m ++ queue
  unfolding push_all
  push_all-append [] queue = refl
  push_all-append (e ∷ m) queue = rw (
    push_all-append m queue,
    push_front_reversed-append e.1 (bunches m ++ queue),
    append_assoc e.1 (bunches m) queue,
  )

  move_ready-append : (ready queue : List B) → move_ready ready queue ≡ queue ++ ready
  unfolding move_ready
  move_ready-append [] queue = rw (append-nil queue)
  move_ready-append (b ∷ ready) queue =
      rw (move_ready-append ready (queue ++ (b ∷ [])), append_assoc queue (b ∷ []) ready)

  countp-lookup :
      (p : B → Bool) (key : ℕ) (m : UnAcked B)
      → countp p (lookup key m) + countp p (bunches (erase key m)) ≡ countp p (bunches m)
  unfolding lookup erase
  countp-lookup p key [] = refl
  countp-lookup p key (e ∷ m) = ground (
    arith,
    countp-append p e.1 (bunches (erase key m)),
    countp-append p e.1 (bunches m),
    countp-lookup p key m,
  )

  countp-push_at :
      (p : B → Bool) (key : ℕ) (b : B) (m : UnAcked B)
      → countp p (bunches (push_at key b m)) ≡ countp p (b ∷ bunches m)
  unfolding push_at
  countp-push_at p key b [] = refl
  countp-push_at p key b (e ∷ m) = ground (
    arith,
    countp-append p (e.1 ++ (b ∷ [])) (bunches m),
    countp-append p e.1 (b ∷ []),
    countp-append p e.1 (bunches (push_at key b m)),
    countp-append p e.1 (bunches m),
    countp-push_at p key b m,
  )

  -- What a channel does between two moments. `new` counts the bunches that the builder adds, `gone`
  -- those that are acknowledged, and `lost` those that the channel gives up: the one taken for a
  -- packet while 512 packets are not settled, one that `drops` keeps out of every packet (in
  -- `AssembleOutgoingPackets`: header-only or too large), and all that `UpdateChannelSeq` clears.
  pub data Step (drops p : B → Bool) : SendState B → SendState B → ℕ → ℕ → ℕ → Type 0 where
    built :
        {s : SendState B} (b : B)
        → Step drops p s
            (record s { queued_out_bunch = s.queued_out_bunch ++ (b ∷ []) })
            (countp p (b ∷ []))
            0
            0
    flushed : {s : SendState B} → Step drops p s (tick_flush s) 0 0 0
    sent :
        {s : SendState B} {b : B} {s₁ : SendState B} (packet_id : ℕ)
        → dequeue_ready_bunch s ≡ some (b, s₁)
        → Step drops p s
            (add_un_acked_out_bunch s₁ packet_id b).1
            0
            0
            (if leb 512 (length s.out_un_acked_bunches) then countp p (b ∷ []) else 0)
    dropped :
        {s : SendState B} {b : B} {s₁ : SendState B}
        → dequeue_ready_bunch s ≡ some (b, s₁)
        → drops b ≡ true
        → Step drops p s s₁ 0 0 (countp p (b ∷ []))
    was_acked :
        {s : SendState B} (packet_id : ℕ)
        → Step drops p s
            (acked s packet_id)
            0
            (countp p (lookup packet_id s.out_un_acked_bunches))
            0
    was_nacked : {s : SendState B} (packet_id : ℕ) → Step drops p s (nacked s packet_id) 0 0 0
    forced : {s : SendState B} → Step drops p s (force_retransmit_all_un_acked s) 0 0 0
    cleared :
        {s : SendState B}
        → Step drops p s
            (clear s)
            0
            0
            (countp p s.out_bunch_queue + countp p (bunches s.out_un_acked_bunches))

  -- Several steps, with the sums of their counts.
  pub data Steps (drops p : B → Bool) : SendState B → SendState B → ℕ → ℕ → ℕ → Type 0 where
    done : {s : SendState B} → Steps drops p s s 0 0 0
    next :
        {s t u : SendState B} {new gone lost new' gone' lost' : ℕ}
        → Step drops p s t new gone lost
        → Steps drops p t u new' gone' lost'
        → Steps drops p s u (new + new') (gone + gone') (lost + lost')

  dequeue-held :
      (p : B → Bool) (s : SendState B) (queue : List B) {b : B} {s₁ : SendState B}
      → dequeue_front s queue ≡ some (b, s₁)
      → countp p (b ∷ s₁.out_bunch_queue) ≡ countp p queue
        × s₁.out_un_acked_bunches ≡ s.out_un_acked_bunches
        × s₁.queued_out_bunch ≡ s.queued_out_bunch
  unfolding dequeue_front
  dequeue-held p s [] d = cc
  dequeue-held p s (x ∷ rest) {b} {s₁} d =
      let eb : b ≡ x = cc in
      let es : s₁ ≡ record s { out_bunch_queue = rest } = cc in rw (eb, es) (refl, refl, refl)

  add-held :
      (p : B → Bool) (s : SendState B) (packet_id : ℕ) (b : B)
      → held p (add_un_acked_out_bunch s packet_id b).1
          + (if leb 512 (length s.out_un_acked_bunches) then countp p (b ∷ []) else 0)
        ≡ held p s + countp p (b ∷ [])
  unfolding add_un_acked_out_bunch
  add-held p s packet_id b = elim (Bool-cases (leb 512 (length s.out_un_acked_bunches))) [
    | inl t ↦ rw (t) refl
    | inr f ↦ rw (f) (omega (arith, countp-push_at p packet_id b s.out_un_acked_bunches))
  ]

  dequeued-held :
      (p : B → Bool) (s : SendState B) {b : B} {s₁ : SendState B}
      → dequeue_ready_bunch s ≡ some (b, s₁)
      → held p s₁ + countp p (b ∷ []) ≡ held p s × s₁.out_un_acked_bunches ≡ s.out_un_acked_bunches
  unfolding dequeue_ready_bunch
  dequeued-held p s d =
      let taken = dequeue-held p s s.out_bunch_queue d in
      (ground (arith, taken.0, taken.1, taken.2), taken.1)

  held-sent :
      (p : B → Bool) (s : SendState B) {b : B} {s₁ : SendState B} (packet_id : ℕ)
      → dequeue_ready_bunch s ≡ some (b, s₁)
      → held p (add_un_acked_out_bunch s₁ packet_id b).1
          + (if leb 512 (length s.out_un_acked_bunches) then countp p (b ∷ []) else 0)
        ≡ held p s
  held-sent p s {b} {s₁} packet_id d =
      let taken = dequeued-held p s d in
      subst
        (λ m.
          held p (add_un_acked_out_bunch s₁ packet_id b).1
            + (if leb 512 (length m) then countp p (b ∷ []) else 0)
          ≡ held p s)
        taken.1 (add-held p s₁ packet_id b ∙ taken.0)

  held-Step :
      (drops p : B → Bool) {s t : SendState B} {new gone lost : ℕ}
      → Step drops p s t new gone lost
      → held p t + gone + lost ≡ held p s + new
  unfolding tick_flush acked nacked force_retransmit_all_un_acked clear
  held-Step drops p (Step.built {s} b) = ground (arith, countp-append p s.queued_out_bunch (b ∷ []))
  held-Step drops p (Step.flushed {s}) =
      rw (move_ready-append s.queued_out_bunch s.out_bunch_queue)
        (ground (arith, countp-append p s.out_bunch_queue s.queued_out_bunch))
  held-Step drops p (Step.sent {s} packet_id d) = omega (arith, held-sent p s packet_id d)
  held-Step drops p (Step.dropped {s} d e) = omega (arith, (dequeued-held p s d).0)
  held-Step drops p (Step.was_acked {s} packet_id) =
      omega (arith, countp-lookup p packet_id s.out_un_acked_bunches)
  held-Step drops p (Step.was_nacked {s} packet_id) =
      rw (push_front_reversed-append (lookup packet_id s.out_un_acked_bunches) s.out_bunch_queue) (
        omega (
          arith,
          countp-lookup p packet_id s.out_un_acked_bunches,
          countp-append p (lookup packet_id s.out_un_acked_bunches) s.out_bunch_queue,
        ))
  held-Step drops p (Step.forced {s}) =
      rw (push_all-append s.out_un_acked_bunches s.out_bunch_queue)
        (omega (arith, countp-append p (bunches s.out_un_acked_bunches) s.out_bunch_queue))
  held-Step drops p (Step.cleared {s}) = omega arith

  -- Over any steps, for any test, what the channel holds in the end, what was acknowledged and what was
  -- given up are together what it held and what was built. Given up are only the bunch that is taken
  -- for a packet while 512 packets are not settled, a bunch that is taken and fails the test for going
  -- into a packet, whatever that test is, and what `UpdateChannelSeq` clears.
  pub held-Steps :
      (drops p : B → Bool) {s t : SendState B} {new gone lost : ℕ}
      → Steps drops p s t new gone lost
      → held p t + gone + lost ≡ held p s + new
  held-Steps drops p Steps.done = omega arith
  held-Steps drops p (Steps.next step rest) =
      omega (arith, held-Step drops p step, held-Steps drops p rest)
