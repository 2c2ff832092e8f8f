-- ===== src/Sequence/Notify/Valid.antt =====
-- The invariant of `NetPacketNotify`, and the operations of NetPacketNotify.cpp that only send.
use rudp_network_engine.Prelude.{
  ℕ, ◌+◌, ◌%◌, ◌^◌, ◌≤◌, ◌<◌, ◌≡◌, refl, Bool, true, false, List, [], ◌∷◌, ◌++◌, arith, length,
  length-append, inl, inr, Bool-cases, ltb, ◌==◌,
}
use rudp_network_engine.Sequence.Number.{IsSeq, increment, seq_sub}
use rudp_network_engine.Sequence.Number.Arithmetic.{increment-mod, seq_sub-mod}
use rudp_network_engine.Sequence.Stream.{WordSink}
use rudp_network_engine.Sequence.History.{IsHistory}
use rudp_network_engine.Sequence.History.Window.{reset-IsHistory}
use rudp_network_engine.Sequence.Notify.{
  Notify, init, commit_and_increment_out_seq, needed_word_count, write_with, write_header,
}

-- The entries number the packets after `acked` and before `next`, one by one.
abbrev pub Outstanding : ℕ → List (ℕ × ℕ) → ℕ → Type 0
Outstanding acked [] next = next ≡ increment acked
Outstanding acked ((sent, in_ack) ∷ rest) next =
    (sent ≡ increment acked) × IsSeq in_ack × Outstanding sent rest next

pub record IsValid (s : Notify) : Type 0 where
  pub in_seq_range : IsSeq s.in_seq
  pub in_ack_range : IsSeq s.in_ack_seq
  pub in_ack_ack_range : IsSeq s.in_ack_seq_ack
  pub written_range : IsSeq s.written_in_ack_seq
  pub waiting_range : IsSeq s.waiting_for_flush_seq_ack
  pub out_ack_range : IsSeq s.out_ack_seq
  pub history_valid : IsHistory s.in_seq_history
  pub words : s.written_history_word_count ≤ 8
  pub outstanding : Outstanding s.out_ack_seq s.ack_record s.out_seq
  pub room : length s.ack_record + 1 < 2 ^ 14

Outstanding-snoc :
    (acked next in_ack : ℕ) (r : List (ℕ × ℕ))
    → IsSeq in_ack
    → Outstanding acked r next
    → Outstanding acked (r ++ ((next, in_ack) ∷ [])) (increment next)
Outstanding-snoc acked next in_ack [] h o = (o, h, refl)
Outstanding-snoc acked next in_ack ((sent, i) ∷ rest) h o =
    (o.0, o.1, Outstanding-snoc sent next in_ack rest h o.2)

-- The number of entries is the distance between the two ends.
pub Outstanding-next :
    (acked next : ℕ) (r : List (ℕ × ℕ))
    → Outstanding acked r next
    → next ≡ (acked + 1 + length r) % 2 ^ 14
Outstanding-next acked next [] o = omega (arith, increment-mod acked)
Outstanding-next acked next ((sent, i) ∷ rest) o =
    omega (arith, o.0, increment-mod acked, Outstanding-next sent next rest o.2)

pub out_seq-IsSeq : {s : Notify} → IsValid s → IsSeq s.out_seq
out_seq-IsSeq {s} v =
    omega (arith, Outstanding-next s.out_ack_seq s.out_seq s.ack_record v.outstanding)

-- `Init` from two sequence numbers, on an object whose last header had at most eight words, gives
-- a valid state in which every packet sent is acknowledged.
pub init-IsValid :
    (s : Notify) (initial_in initial_out : ℕ)
    → IsSeq initial_in
    → IsSeq initial_out
    → s.written_history_word_count ≤ 8
    → IsSeq s.written_in_ack_seq
    → IsValid (init s initial_in initial_out)
unfolding init
init-IsValid s i o hi ho hw hs =
    let e = seq_sub-mod o 1 (omega arith) in
    record {
      in_seq_range = hi;
      in_ack_range = hi;
      in_ack_ack_range = hi;
      written_range = hs;
      waiting_range = omega (arith, e);
      out_ack_range = omega (arith, e);
      history_valid = reset-IsHistory;
      words = hw;
      outstanding = omega (arith, e, increment-mod (seq_sub o 1));
      room = omega arith;
    }

-- `CommitAndIncrementOutSeq` keeps the invariant while fewer than 16382 packets are outstanding.
commit-IsValid :
    {s : Notify}
    → IsValid s
    → length s.ack_record + 2 < 2 ^ 14
    → IsValid (commit_and_increment_out_seq s).1
unfolding commit_and_increment_out_seq
commit-IsValid {s} v h = elim (Bool-cases (s.written_history_word_count == 0)) [
  | inl e ↦ rw e v
  | inr e ↦ rw e (record {
    in_seq_range = v.in_seq_range;
    in_ack_range = v.in_ack_range;
    in_ack_ack_range = v.in_ack_ack_range;
    written_range = v.written_range;
    waiting_range = v.waiting_range;
    out_ack_range = v.out_ack_range;
    history_valid = v.history_valid;
    words = omega arith;
    outstanding =
        Outstanding-snoc s.out_ack_seq s.out_seq s.written_in_ack_seq s.ack_record v.written_range
          v.outstanding;
    room = omega (arith, length-append s.ack_record ((s.out_seq, s.written_in_ack_seq) ∷ []));
  })
]

pub needed_word_count_bounds : (s : Notify) → (1 ≤ needed_word_count s) × (needed_word_count s ≤ 8)
unfolding needed_word_count
needed_word_count_bounds s = omega arith

write_with-IsValid :
    (sink : WordSink) {s : Notify} (count : ℕ) (out : sink.Stream)
    → IsValid s
    → count ≤ 8
    → IsValid (write_with sink s count out).0
unfolding write_with
write_with-IsValid sink {s} count out v h = record {
  in_seq_range = v.in_seq_range;
  in_ack_range = v.in_ack_range;
  in_ack_ack_range = v.in_ack_ack_range;
  written_range = v.in_ack_range;
  waiting_range = v.waiting_range;
  out_ack_range = v.out_ack_range;
  history_valid = v.history_valid;
  words = h;
  outstanding = v.outstanding;
  room = v.room;
}

-- `WriteHeader` keeps the invariant, written anew or refreshed, refused or not.
pub write_header-IsValid :
    (sink : WordSink) {s : Notify} (refresh : Bool) (out : sink.Stream)
    → IsValid s
    → IsValid (write_header sink s refresh out).1
unfolding write_header
write_header-IsValid sink {s} false out v =
    write_with-IsValid sink (needed_word_count s) out v (needed_word_count_bounds s).1
write_header-IsValid sink {s} true out v =
    elim (Bool-cases (ltb s.written_history_word_count (needed_word_count s))) [
      | inl e ↦ rw e v
      | inr e ↦ rw e (write_with-IsValid sink s.written_history_word_count out v v.words)
    ]
