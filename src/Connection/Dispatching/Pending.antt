-- ===== src/Connection/Dispatching/Pending.antt =====
-- What `DispatchPendingPacket` acknowledges where several packets wait.
use rudp_network_engine.Prelude.{
  ℕ, ◌^◌, ◌<◌, ◌≡◌, refl, sym, ◌∙◌, subst, Bool, true, false, List, [], ◌∷◌, Option, some, arith,
  Bool-cases, inl, inr,
}
use rudp_network_engine.Sequence.Number.{IsSeq, distance, seq_gt}
use rudp_network_engine.Sequence.Number.Arithmetic.{make_seq-IsSeq, distance_cases, seq_gt_iff}
use rudp_network_engine.Sequence.History.{is_delivered}
use rudp_network_engine.Sequence.Notify.Valid.{IsValid}
use rudp_network_engine.Sequence.Notify.Receive.{AckedUpTo, ack_seq-AckedUpTo, ack_seq-behind}
use rudp_network_engine.Channel.Record.{to_uint32}
use rudp_network_engine.Prelude.Int.{ℤ}
use rudp_network_engine.Connection.{Connection, NetChannel, seq_of}
use rudp_network_engine.Connection.Dispatching.{dispatch_one, dispatch_all, dispatch_pending_packet}

pub seq_of-IsSeq : (i : ℤ) → IsSeq (seq_of i)
unfolding seq_of
seq_of-IsSeq i = make_seq-IsSeq (to_uint32 i)

seq_gt_irrefl : (a : ℕ) → IsSeq a → seq_gt a a ≡ false
seq_gt_irrefl a h = elim (Bool-cases (seq_gt a a)) [
  | inl t ↦ absurd (omega (arith, (seq_gt_iff a a h h).0 t, distance_cases a a h h))
  | inr f ↦ f
]

module _ {B : Type 0} (create : ℕ → Bool → Option (NetChannel B)) (is_server : Bool) where
  -- Where the newest number is acknowledged, the packets that wait change no acknowledgement.
  dispatch_all-acknowledged :
      (c : Connection B (List ℕ)) (pending : List (List ℕ))
      → seq_gt (seq_of c.in_packet_id) c.packet_notify.in_ack_seq ≡ false
      → (dispatch_all create is_server c pending).1.packet_notify ≡ c.packet_notify
  unfolding dispatch_all dispatch_one
  dispatch_all-acknowledged c [] h = refl
  dispatch_all-acknowledged c (payload ∷ rest) h =
      let same = ack_seq-behind c.packet_notify (seq_of c.in_packet_id) true h in
      dispatch_all-acknowledged (dispatch_one create is_server c payload).1 rest (rw (same) h)
      ∙ same

  dispatch_all-AckedUpTo :
      (c : Connection B (List ℕ)) (payload : List ℕ) (rest : List (List ℕ))
      → IsValid c.packet_notify
      → distance (seq_of c.in_packet_id) c.packet_notify.in_ack_seq < 2 ^ 13
      → AckedUpTo c.packet_notify
          (seq_of c.in_packet_id)
          true
          (distance (seq_of c.in_packet_id) c.packet_notify.in_ack_seq)
          (dispatch_all create is_server c (payload ∷ rest)).1.packet_notify
  unfolding dispatch_all dispatch_one
  dispatch_all-AckedUpTo c payload rest v lt =
      let newest = seq_of c.in_packet_id in
      let acked = ack_seq-AckedUpTo newest true v (seq_of-IsSeq c.in_packet_id) lt in
      let first = (dispatch_one create is_server c payload).1 in
      let last : seq_gt newest first.packet_notify.in_ack_seq ≡ false =
        rw (acked.same) (seq_gt_irrefl newest (seq_of-IsSeq c.in_packet_id)) in
      subst (AckedUpTo c.packet_notify newest true (distance newest c.packet_notify.in_ack_seq))
        (sym (dispatch_all-acknowledged first rest last)) acked

  pending-AckedUpTo :
      (c : Connection B (List ℕ)) (payload : List ℕ) (rest : List (List ℕ))
      → c.pending_readers ≡ payload ∷ rest
      → IsValid c.packet_notify
      → distance (seq_of c.in_packet_id) c.packet_notify.in_ack_seq < 2 ^ 13
      → AckedUpTo c.packet_notify
          (seq_of c.in_packet_id)
          true
          (distance (seq_of c.in_packet_id) c.packet_notify.in_ack_seq)
          (dispatch_pending_packet create is_server c).1.packet_notify
  unfolding dispatch_pending_packet
  pending-AckedUpTo c payload rest e v lt =
      subst
        (λ (pending : List (List ℕ)).
          AckedUpTo c.packet_notify (seq_of c.in_packet_id) true
            (distance (seq_of c.in_packet_id) c.packet_notify.in_ack_seq)
            (dispatch_all create is_server c pending).1.packet_notify)
        (sym e) (dispatch_all-AckedUpTo c payload rest v lt)

  -- Where packets wait and the packet accepted last is `n` numbers after the last one acknowledged,
  -- 0 < n < 256, dispatching the packets that wait reports that packet as delivered, and the n - 1
  -- before it as lost, also those that are among the packets it dispatches.
  pub pending_newest_alone :
      (c : Connection B (List ℕ)) (payload : List ℕ) (rest : List (List ℕ)) (n : ℕ)
      → c.pending_readers ≡ payload ∷ rest
      → IsValid c.packet_notify
      → distance (seq_of c.in_packet_id) c.packet_notify.in_ack_seq ≡ n
      → 0 < n
      → n < 256
      → let history = (dispatch_pending_packet create is_server c).1.packet_notify.in_seq_history in
        (is_delivered history 0 ≡ some true)
        × ((i : ℕ) → 0 < i → i < n → is_delivered history i ≡ some false)
  pending_newest_alone c payload rest n e v d more lt =
      let acked = pending-AckedUpTo c payload rest e v (omega arith) in
      (
        acked.statuses 0 (omega arith) ∙ ground arith,
        λ i pos below. acked.statuses i (omega arith) ∙ ground arith,
      )
