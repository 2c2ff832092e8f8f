-- ===== src/Sequence/Notify/Window.antt =====
-- `InternalUpdate`: a packet is accepted only while its acknowledgement fits in the history, and is
-- given up as lost during a flush.
use rudp_network_engine.Prelude.{
  ℕ, ◌+◌, ◌^◌, ◌≤◌, ◌<◌, ◌≡◌, refl, true, false, some, arith, Bool-cases, inl, inr, length, none,
  ap, subst, sym, ◌∙◌,
}
use rudp_network_engine.Prelude.Int.{ℤ}
use rudp_network_engine.Sequence.Number.{IsSeq, seq_gt, seq_sub, distance}
use rudp_network_engine.Sequence.Number.Arithmetic.{distance_cases, seq_gt_iff, seq_sub-mod}
use rudp_network_engine.Sequence.Notify.{
  Notify, NotificationHeader, current_sequence_history_length, is_waiting_for_flush,
  will_sequence_fit, enter_flush, give_up, internal_update,
}
use rudp_network_engine.Sequence.Notify.Valid.{IsValid, Outstanding-next, out_seq-IsSeq}
use rudp_network_engine.Sequence.Notify.Flush.{
  will_sequence_fit_iff, AllTold, Asked, has_unacknowledged_acks-Asked, InFlush, GivenUpTo, GivenUp,
  fit-false, new_in_seq-Target, give_up-GivenUp, give_up-IsValid, give_up-waiting,
}

-- The three ways in which `InternalUpdate` treats a packet of number `seq` that is ahead.
pub data Outcome (s : Notify) (seq : ℕ) (delta : ℤ) : ℤ × Notify → Type 0 where
  -- accepted: its status fits in the history
  fits :
      is_waiting_for_flush s ≡ false
      → distance seq s.in_ack_seq_ack ≤ 256
      → Outcome s seq delta (delta, record s { in_seq = seq })
  -- accepted, and the window moved up to it: nothing in the history was waiting to be told
  moved :
      is_waiting_for_flush s ≡ false
      → 256 < distance seq s.in_ack_seq_ack
      → AllTold s
      → Outcome s seq delta (delta, record s { in_ack_seq_ack = seq_sub seq 1; in_seq = seq })
  -- given up during a flush, which goes on or begins here, as far as `new_seq`
  flushed :
      (t : Notify) (new_seq : ℕ)
      → IsValid t
      → IsSeq new_seq
      → InFlush s t seq
      → is_waiting_for_flush t ≡ true
      → GivenUpTo s seq new_seq
      → GivenUp t new_seq (give_up t new_seq)
      → Outcome s seq delta (give_up t new_seq)

record Updated (s : Notify) (d : NotificationHeader) (delta : ℤ) : Type 0 where
  answer : ℤ × Notify
  result : internal_update s d delta ≡ some answer
  outcome : Outcome s d.seq delta answer

-- The flush branch, from the state in which the flush is on.
during_flush :
    (s t : Notify) (d : NotificationHeader) (delta : ℤ)
    → IsValid t
    → IsSeq d.seq
    → InFlush s t d.seq
    → is_waiting_for_flush t ≡ true
    → ((new_seq : ℕ) → GivenUpTo t d.seq new_seq → GivenUpTo s d.seq new_seq)
    → enter_flush s d.seq ≡ some t
    → Updated s d delta
unfolding internal_update
during_flush s t d delta v h which waiting same e =
    let target = new_in_seq-Target d.seq v h in
    record {
      answer = give_up t target.new_seq;
      result = rw e (rw waiting (rw target.result));
      outcome =
          flushed t target.new_seq v target.range which waiting (same target.new_seq target.reach)
            (give_up-GivenUp target.new_seq v target.range);
    }

waiting-IsValid :
    {s : Notify} → IsValid s → IsValid (record s { waiting_for_flush_seq_ack = s.out_seq })
waiting-IsValid {s} v = record {
  in_seq_range = v.in_seq_range;
  in_ack_range = v.in_ack_range;
  in_ack_ack_range = v.in_ack_ack_range;
  written_range = v.written_range;
  waiting_range = out_seq-IsSeq v;
  out_ack_range = v.out_ack_range;
  history_valid = v.history_valid;
  words = v.words;
  outstanding = v.outstanding;
  room = v.room;
}

-- With fewer than 8191 packets outstanding the next one is ahead of the last one acknowledged.
out_seq-ahead :
    {s : Notify}
    → IsValid s
    → length s.ack_record + 1 < 2 ^ 13
    → seq_gt s.out_seq s.out_ack_seq ≡ true
out_seq-ahead {s} v h =
    let e = Outstanding-next s.out_ack_seq s.out_seq s.ack_record v.outstanding in
    let c = distance_cases s.out_seq s.out_ack_seq (out_seq-IsSeq v) v.out_ack_range in
    (seq_gt_iff s.out_seq s.out_ack_seq (out_seq-IsSeq v) v.out_ack_range).1
      (omega (arith, v.out_ack_range), omega (arith, v.out_ack_range))

-- In a valid state with fewer than 8191 packets outstanding, `InternalUpdate` always answers, in
-- one of three ways. The packet is accepted where no flush is on and it lies at most 256 after the
-- last packet whose acknowledgement the peer has; it is accepted and the window moves up to it
-- where it lies further and no delivered packet is still to be acknowledged; it is given up where a
-- flush is on, or begins because it lies further and there is such a packet. What is given up then
-- reaches to the packet itself, or, where it lies further and there is such a packet, to where the
-- history is full: where that is not behind the last packet received, it is the last one received now,
-- and every packet up to it that was not acknowledged yet counts as lost.
pub internal_update-Outcome :
    {s : Notify} (d : NotificationHeader) (delta : ℤ)
    → IsValid s
    → IsSeq d.seq
    → length s.ack_record + 1 < 2 ^ 13
    → (answer : ℤ × Notify) × (internal_update s d delta ≡ some answer)
      × Outcome s d.seq delta answer
internal_update-Outcome {s} d delta v h room = let u = cases in (u.answer, u.result, u.outcome)
  where
    moves :
        (asked : Asked s)
        → is_waiting_for_flush s ≡ false
        → will_sequence_fit s d.seq ≡ false
        → asked.answer ≡ false
        → Updated s d delta
    moves asked w f a =
        let still : is_waiting_for_flush (record s { in_ack_seq_ack = seq_sub d.seq 1 }) ≡ false =
          unfold is_waiting_for_flush in w in
        record {
          answer = (delta, record s { in_ack_seq_ack = seq_sub d.seq 1; in_seq = d.seq });
          result =
              unfold internal_update enter_flush in rw (w, f) (rw (asked.result, a) (rw still));
          outcome = moved w (fit-false d.seq v h f) (asked.none_left a);
        }

    cases : Updated s d delta
    cases = elim (Bool-cases (is_waiting_for_flush s)) [
      | inl w ↦
          during_flush s s d delta v h (inl (w, refl)) w (λ n g. g) (unfold enter_flush in rw w)
      | inr w ↦ elim (Bool-cases (will_sequence_fit s d.seq)) [
        | inl f ↦ record {
          answer = (delta, record s { in_seq = d.seq });
          result = unfold internal_update enter_flush in rw (w, f) (rw w);
          outcome = fits w ((will_sequence_fit_iff d.seq v h).0 f);
        }
        | inr f ↦
            let asked = has_unacknowledged_acks-Asked v in
            elim (Bool-cases asked.answer) [
              | inl a ↦
                  during_flush s (record s { waiting_for_flush_seq_ack = s.out_seq }) d delta
                    (waiting-IsValid v) h (inr (w, fit-false d.seq v h f, asked.found a, refl))
                    (unfold is_waiting_for_flush in out_seq-ahead v room)
                    (λ n g. unfold current_sequence_history_length in g)
                    (unfold enter_flush in rw (w, f, asked.result, a))
              | inr a ↦ moves asked w f a
            ]
      ]
    ]

-- Each of the three ways keeps the invariant.
pub Outcome-IsValid :
    {s : Notify} {seq : ℕ} {delta : ℤ} {answer : ℤ × Notify}
    → IsValid s
    → IsSeq seq
    → Outcome s seq delta answer
    → IsValid answer.1
Outcome-IsValid {s} v h (fits w near) = record {
  in_seq_range = h;
  in_ack_range = v.in_ack_range;
  in_ack_ack_range = v.in_ack_ack_range;
  written_range = v.written_range;
  waiting_range = v.waiting_range;
  out_ack_range = v.out_ack_range;
  history_valid = v.history_valid;
  words = v.words;
  outstanding = v.outstanding;
  room = v.room;
}
Outcome-IsValid {s} {seq} v h (moved w far idle) = record {
  in_seq_range = h;
  in_ack_range = v.in_ack_range;
  in_ack_ack_range = omega (arith, seq_sub-mod seq 1 (omega arith));
  written_range = v.written_range;
  waiting_range = v.waiting_range;
  out_ack_range = v.out_ack_range;
  history_valid = v.history_valid;
  words = v.words;
  outstanding = v.outstanding;
  room = v.room;
}
Outcome-IsValid v h (flushed t new_seq vt hn which waiting reach given) =
    give_up-IsValid new_seq vt hn

pub accepted-near :
    {s : Notify} {seq : ℕ} {delta : ℤ} {answer : ℤ × Notify}
    → IsSeq seq
    → Outcome s seq delta answer
    → is_waiting_for_flush answer.1 ≡ false
    → (answer.0 ≡ delta) × (answer.1.in_seq ≡ seq) × (distance seq answer.1.in_ack_seq_ack ≤ 256)
accepted-near h (fits w near) e = (refl, refl, near)
accepted-near {s} {seq} h (moved w far idle) e =
    let back = seq_sub-mod seq 1 (omega arith) in
    (refl, refl, omega (arith, back, distance_cases seq (seq_sub seq 1) h (omega (arith, back))))
accepted-near h (flushed t new_seq vt hn which waiting reach given) e =
    cc (e, waiting, give_up-waiting t new_seq)

some-injective : {A : Type 0} {x y : A} → some x ≡ some y → x ≡ y
some-injective {A} {x} e = ap (λ o. elim o as (λ _. A) [ none ↦ x | some z ↦ z ]) e

-- Whatever is accepted lies in the window: where `InternalUpdate` answers in a valid state with fewer
-- than 8191 packets outstanding and no flush is on after it, it answers the delta given to it, the last
-- packet received is the header's, and its number is at most 256 after the last packet whose
-- acknowledgement the peer has, so that its status fits in the history.
pub accepted-in-window :
    {s t : Notify} (d : NotificationHeader) (delta answered : ℤ)
    → IsValid s
    → IsSeq d.seq
    → length s.ack_record + 1 < 2 ^ 13
    → internal_update s d delta ≡ some (answered, t)
    → is_waiting_for_flush t ≡ false
    → (answered ≡ delta) × (t.in_seq ≡ d.seq) × (distance d.seq t.in_ack_seq_ack ≤ 256)
accepted-in-window {s} {t} d delta answered v h room ran calm =
    let o = internal_update-Outcome d delta v h room in
    accepted-near h (subst (Outcome s d.seq delta) (some-injective (sym o.1 ∙ ran)) o.2) calm
