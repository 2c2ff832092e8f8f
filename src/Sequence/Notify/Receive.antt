-- ===== src/Sequence/Notify/Receive.antt =====
-- `AckSeq` and `NakSeq`: the history after a packet was accepted or given up.
use rudp_network_engine.Prelude.{
  ℕ, zero, suc, ◌-◌, ◌^◌, ◌≤◌, ◌<◌, ◌≡◌, refl, Bool, false, Option, some, arith, ◌∙◌, ltb, ◌&&◌,
  ◌==◌, if◌then◌else◌, Bool-cases, inl, inr, dec_lt,
}
use rudp_network_engine.Sequence.Number.{IsSeq, increment, seq_gt, distance}
use rudp_network_engine.Sequence.Number.Arithmetic.{
  increment-mod, increment-IsSeq, distance_cases, seq_gt_iff,
}
use rudp_network_engine.Sequence.History.{IsHistory, is_delivered}
use rudp_network_engine.Sequence.History.Window.{
  add-IsHistory, is_delivered-add-zero, is_delivered-add-suc,
}
use rudp_network_engine.Sequence.Notify.{Notify, ack_step, ack_loop, ack_seq}
use rudp_network_engine.Sequence.Notify.Valid.{IsValid}

-- The history `h'` is `h` moved up by `n` places: the newest status is `is_ack`, and the packets
-- skipped below it count as lost.
abbrev pub shifted_status : Bool → ℕ → ℕ → Option Bool → Option Bool
shifted_status is_ack n i older = if ltb i n then some (i == 0 && is_ack) else older

-- `s'` is `s` after the packets up to `acked`, `n` of them, went into the history.
pub record AckedUpTo (s : Notify) (acked : ℕ) (is_ack : Bool) (n : ℕ) (s' : Notify) : Type 0 where
  pub same : s' ≡ record s { in_ack_seq = acked; in_seq_history = s'.in_seq_history }
  pub history_valid : IsHistory s'.in_seq_history
  pub statuses :
      (i : ℕ)
      → i < 256
      → is_delivered s'.in_seq_history i
        ≡ shifted_status is_ack n i (is_delivered s.in_seq_history (i - n))

module _ (acked : ℕ) (is_ack : Bool) (ha : IsSeq acked) where
  loop_ends :
      (s : Notify)
      → IsSeq s.in_ack_seq
      → IsHistory s.in_seq_history
      → distance acked s.in_ack_seq ≡ 0
      → AckedUpTo s acked is_ack 0 s
  loop_ends s hs hh e =
      let same : s.in_ack_seq ≡ acked = omega (arith, distance_cases acked s.in_ack_seq ha hs) in
      record {
        same = λ i. record s { in_ack_seq = same i };
        history_valid = hh;
        statuses = λ i lt. ground arith;
      }

  one_step :
      (s s' : Notify) (n : ℕ)
      → IsSeq s.in_ack_seq
      → IsHistory s.in_seq_history
      → distance acked s.in_ack_seq ≡ suc n
      → AckedUpTo (ack_step s acked is_ack) acked is_ack n s'
      → AckedUpTo s acked is_ack (suc n) s'
  unfolding ack_step
  one_step s s' n hs hh e r =
      let b = if increment s.in_ack_seq == acked then is_ack else false in
      let last = distance_cases acked s.in_ack_seq ha hs in
      record {
        same = r.same;
        history_valid = r.history_valid;
        statuses = λ i lt. r.statuses i lt ∙ elim (dec_lt i n) [
          | yes p ↦ ground arith
          | no p ↦ elim (dec_lt n i) [
            | yes q ↦
                let e₁ : i - n ≡ suc (i - suc n) = omega arith in
                ground (arith, e₁, is_delivered-add-suc b s.in_seq_history (i - suc n) hh)
            | no q ↦
                let e₁ : i - n ≡ 0 = omega arith in
                ground (
                  arith,
                  e₁,
                  is_delivered-add-zero b s.in_seq_history hh,
                  last,
                  increment-mod s.in_ack_seq,
                )
          ]
        ];
      }

  ack_loop-AckedUpTo :
      (fuel n : ℕ) (s : Notify)
      → IsSeq s.in_ack_seq
      → IsHistory s.in_seq_history
      → distance acked s.in_ack_seq ≡ n
      → n ≤ fuel
      → n < 2 ^ 13
      → AckedUpTo s acked is_ack n (ack_loop fuel s acked is_ack)
  unfolding ack_loop
  ack_loop-AckedUpTo zero zero s hs hh e le lt = loop_ends s hs hh e
  ack_loop-AckedUpTo zero (suc n) s hs hh e le lt = absurd (omega arith)
  ack_loop-AckedUpTo (suc fuel) zero s hs hh e le lt =
      elim (Bool-cases (seq_gt acked s.in_ack_seq)) [
        | inl more ↦ absurd (omega (arith, (seq_gt_iff acked s.in_ack_seq ha hs).0 more))
        | inr done ↦ rw (done, ack_loop) (loop_ends s hs hh e)
      ]
  ack_loop-AckedUpTo (suc fuel) (suc n) s hs hh e le lt =
      let more = (seq_gt_iff acked s.in_ack_seq ha hs).1 (omega arith, omega arith) in
      let next = increment-IsSeq s.in_ack_seq in
      let b = if increment s.in_ack_seq == acked then is_ack else false in
      let nearer : distance acked (increment s.in_ack_seq) ≡ n = omega (
        arith,
        increment-mod s.in_ack_seq,
        distance_cases acked s.in_ack_seq ha hs,
        distance_cases acked (increment s.in_ack_seq) ha next,
      ) in
      rw (more, ack_loop)
        (one_step s _ n hs hh e (
          ack_loop-AckedUpTo fuel n (ack_step s acked is_ack) (unfold ack_step in next)
            (unfold ack_step in add-IsHistory b s.in_seq_history hh) (unfold ack_step in nearer)
            (omega arith) (omega arith)))

-- Where the acknowledged number is not behind, `AckSeq` ends with it as the last one acknowledged
-- and touches the history alone besides: the statuses move up by as many places as there are new
-- packets, the newest is the one given, those of the packets skipped are "lost".
pub ack_seq-AckedUpTo :
    {s : Notify} (acked : ℕ) (is_ack : Bool)
    → IsValid s
    → IsSeq acked
    → distance acked s.in_ack_seq < 2 ^ 13
    → AckedUpTo s acked is_ack (distance acked s.in_ack_seq) (ack_seq s acked is_ack)
unfolding ack_seq
ack_seq-AckedUpTo {s} acked is_ack v ha lt =
    ack_loop-AckedUpTo acked is_ack ha (2 ^ 13) (distance acked s.in_ack_seq) s v.in_ack_range
      v.history_valid refl (omega arith) lt

-- Otherwise it changes nothing.
pub ack_seq-behind :
    (s : Notify) (acked : ℕ) (is_ack : Bool)
    → seq_gt acked s.in_ack_seq ≡ false
    → ack_seq s acked is_ack ≡ s
unfolding ack_seq
ack_seq-behind s acked is_ack e = stops (2 ^ 13) (omega arith)
  where
    stops : (fuel : ℕ) → 0 < fuel → ack_loop fuel s acked is_ack ≡ s
    stops zero h = absurd (omega arith)
    stops (suc fuel) h = unfold ack_loop in rw (e, ack_loop)

AckedUpTo-IsValid :
    {s s' : Notify} {acked n : ℕ} {is_ack : Bool}
    → IsValid s
    → IsSeq acked
    → AckedUpTo s acked is_ack n s'
    → IsValid s'
AckedUpTo-IsValid {s} {s'} {acked} v ha r = rw r.same (record {
  in_seq_range = v.in_seq_range;
  in_ack_range = ha;
  in_ack_ack_range = v.in_ack_ack_range;
  written_range = v.written_range;
  waiting_range = v.waiting_range;
  out_ack_range = v.out_ack_range;
  history_valid = r.history_valid;
  words = v.words;
  outstanding = v.outstanding;
  room = v.room;
})

-- `AckSeq` and `NakSeq` keep the invariant.
pub ack_seq-IsValid :
    {s : Notify} (acked : ℕ) (is_ack : Bool)
    → IsValid s
    → IsSeq acked
    → IsValid (ack_seq s acked is_ack)
ack_seq-IsValid {s} acked is_ack v ha = elim (Bool-cases (seq_gt acked s.in_ack_seq)) [
  | inl more ↦ AckedUpTo-IsValid v ha (
      ack_seq-AckedUpTo acked is_ack v ha
        ((seq_gt_iff acked s.in_ack_seq ha v.in_ack_range).0 more).1)
  | inr behind ↦ rw (ack_seq-behind s acked is_ack behind) v
]

ack_loop-keeps :
    (fuel : ℕ) (s : Notify) (acked : ℕ) (is_ack : Bool)
    → ((ack_loop fuel s acked is_ack).waiting_for_flush_seq_ack ≡ s.waiting_for_flush_seq_ack)
      × ((ack_loop fuel s acked is_ack).out_ack_seq ≡ s.out_ack_seq)
unfolding ack_loop ack_step
ack_loop-keeps zero s acked is_ack = (refl, refl)
ack_loop-keeps (suc fuel) s acked is_ack = elim (Bool-cases (seq_gt acked s.in_ack_seq)) [
  | inl more ↦ rw (more, ack_loop) (ack_loop-keeps fuel (ack_step s acked is_ack) acked is_ack)
  | inr done ↦ rw (done, ack_loop) (refl, refl)
]

-- `AckSeq` does not touch the state of a flush.
pub ack_seq-keeps :
    (s : Notify) (acked : ℕ) (is_ack : Bool)
    → ((ack_seq s acked is_ack).waiting_for_flush_seq_ack ≡ s.waiting_for_flush_seq_ack)
      × ((ack_seq s acked is_ack).out_ack_seq ≡ s.out_ack_seq)
unfolding ack_seq
ack_seq-keeps s acked is_ack = ack_loop-keeps (2 ^ 13) s acked is_ack
