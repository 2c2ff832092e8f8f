-- ===== src/Sequence/Notify/Records.antt =====
-- `UpdateInAckSeqAck`: the entry of an acknowledged packet is always at hand.
use rudp_network_engine.Prelude.{
  ℕ, zero, suc, ◌+◌, ◌-◌, ◌%◌, ◌^◌, ◌≤◌, ◌<◌, ◌≡◌, sym, true, some, List, [], ◌∷◌, ◌++◌, arith,
  length, drop, take, take-append-drop, length-take, ap, ◌∙◌, subst,
}
use rudp_network_engine.Sequence.Number.{IsSeq, seq_gt, distance, diff}
use rudp_network_engine.Sequence.Number.Arithmetic.{
  increment-mod, distance_cases, diff-distance, seq_gt-distance,
}
use rudp_network_engine.Sequence.Notify.{Notify, take_record, update_in_ack_seq_ack}
use rudp_network_engine.Sequence.Notify.Valid.{
  IsValid, Outstanding, Outstanding-next, out_seq-IsSeq,
}

-- What `drop k` leaves of the entries starts with the packet `k + 1` places after `acked`.
record Front (acked next k : ℕ) (r : List (ℕ × ℕ)) : Type 0 where
  in_ack : ℕ
  rest : List (ℕ × ℕ)
  shape : drop k r ≡ ((acked + 1 + k) % 2 ^ 14, in_ack) ∷ rest
  in_ack_range : IsSeq in_ack
  outstanding : Outstanding ((acked + 1 + k) % 2 ^ 14) rest next
  fewer : length rest + k + 1 ≡ length r

Outstanding-Front :
    (acked next k : ℕ) (r : List (ℕ × ℕ))
    → Outstanding acked r next
    → k < length r
    → Front acked next k r
Outstanding-Front acked next k [] o h = absurd (omega arith)
Outstanding-Front acked next zero ((sent, i) ∷ rest) o h =
    let e : sent ≡ (acked + 1 + 0) % 2 ^ 14 = omega (arith, o.0, increment-mod acked) in
    record {
      in_ack = i;
      rest = rest;
      shape = rw (← e);
      in_ack_range = o.1;
      outstanding = subst (λ t. Outstanding t rest next) e o.2;
      fewer = omega arith;
    }
Outstanding-Front acked next (suc k) ((sent, i) ∷ rest) o h =
    let f = Outstanding-Front sent next k rest o.2 (omega arith) in
    let e : (sent + 1 + k) % 2 ^ 14 ≡ (acked + 1 + suc k) % 2 ^ 14 =
      omega (arith, o.0, increment-mod acked) in
    record {
      in_ack = f.in_ack;
      rest = f.rest;
      shape = rw (← e) f.shape;
      in_ack_range = f.in_ack_range;
      outstanding = subst (λ t. Outstanding t f.rest next) e f.outstanding;
      fewer = omega (arith, f.fewer);
    }

-- The entry of the packet `acked` of the state `s`, found by `UpdateInAckSeqAck`.
pub record Found (s : Notify) (acked : ℕ) : Type 0 where
  pub in_ack : ℕ
  pub older : List (ℕ × ℕ)
  pub rest : List (ℕ × ℕ)
  pub split : s.ack_record ≡ older ++ ((acked, in_ack) ∷ rest)
  pub count : length older + 1 ≡ distance acked s.out_ack_seq
  pub result :
      update_in_ack_seq_ack s (diff acked s.out_ack_seq) acked
      ≡ some (in_ack, record s { ack_record = rest })
  pub in_ack_range : IsSeq in_ack
  pub outstanding : Outstanding acked rest s.out_seq
  pub fewer : length rest + distance acked s.out_ack_seq ≡ length s.ack_record

-- In a valid state, for a packet that was sent and not acknowledged before, `UpdateInAckSeqAck`
-- removes the entries up to that packet's own and returns the acknowledgement sent with it: the
-- fallback for a lost record is never taken.
pub update_in_ack_seq_ack-Found :
    {s : Notify} (acked : ℕ)
    → IsValid s
    → IsSeq acked
    → seq_gt acked s.out_ack_seq ≡ true
    → seq_gt s.out_seq acked ≡ true
    → Found s acked
update_in_ack_seq_ack-Found {s} acked v ha newer sent =
    let out = out_seq-IsSeq v in
    let n = distance acked s.out_ack_seq in
    let near = seq_gt-distance acked s.out_ack_seq newer ha v.out_ack_range in
    let near' = seq_gt-distance s.out_seq acked sent out ha in
    let far = distance_cases acked s.out_ack_seq ha v.out_ack_range in
    let far' = distance_cases s.out_seq acked out ha in
    let next = Outstanding-next s.out_ack_seq s.out_seq s.ack_record v.outstanding in
    let inside : n ≤ length s.ack_record = omega (arith, v.room, v.out_ack_range) in
    let f =
      Outstanding-Front s.out_ack_seq s.out_seq (n - 1) s.ack_record v.outstanding (omega arith) in
    let e : (s.out_ack_seq + 1 + (n - 1)) % 2 ^ 14 ≡ acked = omega arith in
    record {
      in_ack = f.in_ack;
      older = take (n - 1) s.ack_record;
      rest = f.rest;
      split =
          sym (take-append-drop (n - 1) s.ack_record)
          ∙ ap (◌++◌ (take (n - 1) s.ack_record)) (f.shape ∙ ap (λ t. (t, f.in_ack) ∷ f.rest) e);
      count = omega (arith, length-take (n - 1) s.ack_record);
      result =
          unfold update_in_ack_seq_ack take_record in
          ground (arith, diff-distance acked s.out_ack_seq ha v.out_ack_range, f.shape, e);
      in_ack_range = f.in_ack_range;
      outstanding = subst (λ t. Outstanding t f.rest s.out_seq) e f.outstanding;
      fewer = omega (arith, f.fewer);
    }
