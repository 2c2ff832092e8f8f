-- ===== src/Sequence/Notify/Flush.antt =====
-- What `InternalUpdate` is made of: whether a packet fits in the history, whether delivered packets are
-- still to be acknowledged, how far a flush gives packets up, and what giving them up does.
use rudp_network_engine.Prelude.{
  ℕ, zero, suc, ◌+◌, ◌-◌, ◌%◌, ◌^◌, ◌≤◌, ◌<◌, ◌≡◌, refl, Bool, true, false, some, arith,
  if◌then◌else◌, Bool-cases, ◌⊎◌, ◌↔◌, inl, inr, dec_lt,
}
use rudp_network_engine.Prelude.Int.{ℤ, pos}
use rudp_network_engine.Sequence.Number.{IsSeq, seq_gt, seq_ge, seq_add, distance, diff}
use rudp_network_engine.Sequence.Number.Arithmetic.{
  seq_gt_iff, seq_ge_iff, diff-pos, make_seq-IsSeq, make_seq-mod,
}
use rudp_network_engine.Sequence.History.{History, IsHistory}
use rudp_network_engine.Sequence.Notify.{
  Notify, current_sequence_history_length, is_waiting_for_flush, any_delivered,
  has_unacknowledged_acks, will_sequence_fit, new_in_seq_to_ack, give_up,
}
use rudp_network_engine.Sequence.Notify.Valid.{IsValid}
use rudp_network_engine.Sequence.Notify.Acks.{status_at, is_delivered-in-range}
use rudp_network_engine.Sequence.Notify.Receive.{
  AckedUpTo, ack_seq-IsValid, ack_seq-keeps, ack_seq-AckedUpTo, ack_seq-behind,
}

history_length-le : (s : Notify) → current_sequence_history_length s ≤ 256
unfolding current_sequence_history_length
history_length-le s = ground arith

pub will_sequence_fit_iff :
    {s : Notify} (seq : ℕ)
    → IsValid s
    → IsSeq seq
    → (will_sequence_fit s seq ≡ true) ↔ (distance seq s.in_ack_seq_ack ≤ 256)
unfolding will_sequence_fit
will_sequence_fit_iff {s} seq v h =
    let e = seq_ge_iff seq s.in_ack_seq_ack in
    let d = diff-pos seq s.in_ack_seq_ack h v.in_ack_ack_range in ground (arith, e.0, e.1, d)

-- The loop finds a delivered status in its range, or there is none.
record Searched (h : History) (i n : ℕ) : Type 0 where
  answer : Bool
  result : any_delivered h i n ≡ some answer
  none_left : answer ≡ false → (k : ℕ) → i ≤ k → k < i + n → status_at h k ≡ false
  found : answer ≡ true → (k : ℕ) × (i ≤ k) × (k < i + n) × (status_at h k ≡ true)

any_delivered-Searched : (h : History) (i n : ℕ) → IsHistory h → i + n ≤ 256 → Searched h i n
unfolding any_delivered
any_delivered-Searched h i zero v le = record {
  answer = false;
  result = refl;
  none_left = λ e k p q. absurd (omega arith);
  found = λ e. cc;
}
any_delivered-Searched h i (suc n) v le =
    let later = any_delivered-Searched h (i + 1) n v (omega arith) in
    record {
      answer = if status_at h i then true else later.answer;
      result = ground (arith, is_delivered-in-range h i v (omega arith), later.result);
      none_left = λ e k p q. elim (dec_lt i k) [
        | yes l ↦ ground (arith, later.none_left (ground arith) k (omega arith) (omega arith))
        | no l ↦ let same : k ≡ i = omega arith in rw same (ground arith)
      ];
      found = λ e. elim (Bool-cases (status_at h i)) [
        | inl t ↦ (i, omega arith, omega arith, t)
        | inr f ↦
            let there = later.found (ground (arith, e, f)) in
            (there.0, omega (arith, there.1), omega (arith, there.2), there.3)
      ];
    }

-- No delivered packet is still to be acknowledged, and there is one.
abbrev pub AllTold : Notify → Type 0
AllTold s = (k : ℕ) → k < current_sequence_history_length s → status_at s.in_seq_history k ≡ false

abbrev pub SomeUntold : Notify → Type 0
SomeUntold s =
    (k : ℕ) × (k < current_sequence_history_length s) × (status_at s.in_seq_history k ≡ true)

-- `GetHasUnacknowledgedAcks` always answers.
pub record Asked (s : Notify) : Type 0 where
  pub answer : Bool
  pub result : has_unacknowledged_acks s ≡ some answer
  pub none_left : answer ≡ false → AllTold s
  pub found : answer ≡ true → SomeUntold s

pub has_unacknowledged_acks-Asked : {s : Notify} → IsValid s → Asked s
unfolding has_unacknowledged_acks
has_unacknowledged_acks-Asked {s} v =
    let r =
      any_delivered-Searched s.in_seq_history 0 (current_sequence_history_length s) v.history_valid
        (omega (arith, history_length-le s)) in
    record {
      answer = r.answer;
      result = r.result;
      none_left = λ e k lt. r.none_left e k (omega arith) (omega arith);
      found = λ e. let there = r.found e in (there.0, omega (arith, there.2), there.3);
    }

-- The flush is on already in `s`; or it begins, and lasts until the next packet to be sent is
-- acknowledged: the packet `seq` does not fit, and a delivered packet is still to be acknowledged.
abbrev pub InFlush : Notify → Notify → ℕ → Type 0
InFlush s t seq =
    ((is_waiting_for_flush s ≡ true) × (t ≡ s))
    ⊎ ((is_waiting_for_flush s ≡ false)
        × (256 < distance seq s.in_ack_seq_ack)
        × SomeUntold s
        × (t ≡ record s { waiting_for_flush_seq_ack = s.out_seq }))

-- How far the packets are given up: up to `seq` itself where it fits or all is told, else as far as the
-- history still has room.
abbrev pub GivenUpTo : Notify → ℕ → ℕ → Type 0
GivenUpTo s seq new_seq =
    ((distance seq s.in_ack_seq_ack ≤ 256) × (new_seq ≡ seq))
    ⊎ (((256 < distance seq s.in_ack_seq_ack) × AllTold s × (new_seq ≡ seq))
        ⊎ ((256 < distance seq s.in_ack_seq_ack)
            × SomeUntold s
            × (new_seq ≡ (s.in_ack_seq_ack + (256 - current_sequence_history_length s)) % 2 ^ 14)))

-- What giving up to `new_seq` answers: nothing where that is behind the last packet received; else that
-- packet is the last one received, and every packet up to it that was not acknowledged yet goes into
-- the history as lost.
abbrev pub GivenUp : Notify → ℕ → ℤ × Notify → Type 0
GivenUp t new_seq answer =
    ((seq_ge new_seq t.in_seq ≡ false) × (answer ≡ (pos 0, t)))
    ⊎ ((seq_ge new_seq t.in_seq ≡ true)
        × (answer.0 ≡ diff new_seq t.in_seq)
        × (((seq_gt new_seq t.in_ack_seq ≡ false) × (answer.1 ≡ record t { in_seq = new_seq }))
            ⊎ ((seq_gt new_seq t.in_ack_seq ≡ true)
                × AckedUpTo (record t { in_seq = new_seq }) new_seq false
                    (distance new_seq t.in_ack_seq) answer.1)))

pub record Target (t : Notify) (seq : ℕ) : Type 0 where
  pub new_seq : ℕ
  pub result : new_in_seq_to_ack t seq ≡ some new_seq
  pub range : IsSeq new_seq
  pub reach : GivenUpTo t seq new_seq

pub fit-false :
    {s : Notify} (seq : ℕ)
    → IsValid s
    → IsSeq seq
    → will_sequence_fit s seq ≡ false
    → 256 < distance seq s.in_ack_seq_ack
fit-false {s} seq v h e = elim (dec_lt 256 (distance seq s.in_ack_seq_ack)) [
  | yes p ↦ p
  | no p ↦ cc (e, (will_sequence_fit_iff seq v h).1 (omega arith))
]

pub new_in_seq-Target : {t : Notify} (seq : ℕ) → IsValid t → IsSeq seq → Target t seq
unfolding new_in_seq_to_ack seq_add
new_in_seq-Target {t} seq v h = elim (Bool-cases (will_sequence_fit t seq)) [
  | inl e ↦ record {
    new_seq = seq;
    result = rw e;
    range = h;
    reach = inl ((will_sequence_fit_iff seq v h).0 e, refl);
  }
  | inr e ↦
      let asked = has_unacknowledged_acks-Asked v in
      let far = fit-false seq v h e in
      elim (Bool-cases asked.answer) [
        | inl a ↦ record {
          new_seq = seq_add t.in_ack_seq_ack (256 - current_sequence_history_length t);
          result = rw (e, asked.result, a);
          range = make_seq-IsSeq (t.in_ack_seq_ack + (256 - current_sequence_history_length t));
          reach = inr (
              inr (
                far,
                asked.found a,
                make_seq-mod (t.in_ack_seq_ack + (256 - current_sequence_history_length t)),
              ));
        }
        | inr a ↦ record {
          new_seq = seq;
          result = rw (e, asked.result, a);
          range = h;
          reach = inr (inl (far, asked.none_left a, refl));
        }
      ]
]

numbered-IsValid :
    {t : Notify} (new_seq : ℕ) → IsValid t → IsSeq new_seq → IsValid (record t { in_seq = new_seq })
numbered-IsValid new_seq v h = record {
  in_seq_range = h;
  in_ack_range = v.in_ack_range;
  in_ack_ack_range = v.in_ack_ack_range;
  written_range = v.written_range;
  waiting_range = v.waiting_range;
  out_ack_range = v.out_ack_range;
  history_valid = v.history_valid;
  words = v.words;
  outstanding = v.outstanding;
  room = v.room;
}

pub give_up-GivenUp :
    {t : Notify} (new_seq : ℕ) → IsValid t → IsSeq new_seq → GivenUp t new_seq (give_up t new_seq)
unfolding give_up
give_up-GivenUp {t} new_seq v h = elim (Bool-cases (seq_ge new_seq t.in_seq)) [
  | inr e ↦ inl (e, rw e refl)
  | inl e ↦ elim (Bool-cases (seq_gt new_seq t.in_ack_seq)) [
    | inr g ↦ inr (
      e,
      rw e refl,
      inl (g, rw e (ack_seq-behind (record t { in_seq = new_seq }) new_seq false g)),
    )
    | inl g ↦
        let near = (seq_gt_iff new_seq t.in_ack_seq h v.in_ack_range).0 g in
        inr (
          e,
          rw e refl,
          inr (
            g,
            rw e (
                ack_seq-AckedUpTo new_seq false (numbered-IsValid new_seq v h) h
                  (omega (arith, near))),
          ),
        )
  ]
]

pub give_up-IsValid :
    {t : Notify} (new_seq : ℕ) → IsValid t → IsSeq new_seq → IsValid (give_up t new_seq).1
unfolding give_up
give_up-IsValid {t} new_seq v h = elim (Bool-cases (seq_ge new_seq t.in_seq)) [
  | inl e ↦ rw e (ack_seq-IsValid new_seq false (numbered-IsValid new_seq v h) h)
  | inr e ↦ rw e v
]

pub give_up-waiting :
    (t : Notify) (new_seq : ℕ) → is_waiting_for_flush (give_up t new_seq).1 ≡ is_waiting_for_flush t
unfolding give_up is_waiting_for_flush
give_up-waiting t new_seq = elim (Bool-cases (seq_ge new_seq t.in_seq)) [
  | inl e ↦
      let k = ack_seq-keeps (record t { in_seq = new_seq }) new_seq false in rw e (rw (k.0, k.1))
  | inr e ↦ rw e
]
