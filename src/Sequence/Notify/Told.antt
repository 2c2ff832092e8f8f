-- ===== src/Sequence/Notify/Told.antt =====
-- The packets that one header tells of, by their numbers, and what stays outstanding.
use rudp_network_engine.Prelude.{
  ℕ, zero, suc, ◌+◌, ◌%◌, ◌^◌, ◌<◌, ◌≡◌, refl, Bool, false, some, List, [], ◌∷◌, arith, length,
  get_elem?, ◌∙◌, ap, subst, Bool-cases, inl, inr,
}
use rudp_network_engine.Sequence.Number.Arithmetic.{distance_cases}
use rudp_network_engine.Prelude.Int.{ℤ}
use rudp_network_engine.Sequence.Number.{seq_gt, seq_ge}
use rudp_network_engine.Sequence.Notify.{
  Notify, NotificationHeader, Notification, ack_step, ack_loop, ack_seq, give_up,
}
use rudp_network_engine.Sequence.Notify.Window.{Outcome, fits, moved, flushed}
use rudp_network_engine.Sequence.Notify.Valid.{IsValid}
use rudp_network_engine.Sequence.Notify.Acks.{AcksNew, Settled}

-- The numbers count up from `start`.
abbrev pub CountsUp : ℕ → List Notification → Type 0
CountsUp start [] = Unit {0}
CountsUp start (n ∷ rest) = (n.0 ≡ start % 2 ^ 14) × CountsUp (start + 1) rest

-- `notes` tell of the packets after the last acknowledged one of `s`, up to that of `t`.
pub record Numbered (s t : Notify) (notes : List Notification) : Type 0 where
  pub each : CountsUp (s.out_ack_seq + 1) notes
  pub acked : t.out_ack_seq ≡ (s.out_ack_seq + length notes) % 2 ^ 14
  pub left : length t.ack_record + length notes ≡ length s.ack_record

CountsUp-told :
    (notes : List Notification) (start : ℕ) (status : ℕ → Bool)
    → ((i : ℕ) → i < length notes → get_elem? notes i ≡ some ((start + i) % 2 ^ 14, status i))
    → CountsUp start notes
CountsUp-told [] start status h = tt
CountsUp-told (n ∷ rest) start status h =
    let e : start + 0 ≡ start = omega arith in
    let first : some n ≡ some ((start + 0) % 2 ^ 14, status 0) = h 0 (omega arith) in
    let same : n ≡ ((start + 0) % 2 ^ 14, status 0) = cc in
    (
      ap (λ x. x.0) same ∙ ap (λ j. j % 2 ^ 14) e,
      CountsUp-told rest (start + 1) (λ i. status (suc i))
          (λ i lt.
            let e' : start + suc i ≡ start + 1 + i = omega arith in
            h (suc i) (omega arith) ∙ ap (λ j. some (j % 2 ^ 14, status (suc i))) e'),
    )

pub Settled-Numbered :
    {s : Notify} {d : NotificationHeader}
    → IsValid s
    → AcksNew s d
    → (r : Settled s d) → Numbered s r.next r.notes
Settled-Numbered {s} {d} v new r = record {
  each =
      CountsUp-told r.notes (s.out_ack_seq + 1) _
        (λ i lt. r.told i (omega (arith, lt, r.told_once)));
  acked = omega (
    arith,
    r.acked,
    r.told_once,
    distance_cases d.acked_seq s.out_ack_seq new.acked_range v.out_ack_range,
  );
  left = r.left;
}

-- The members that sending uses: what a header's own number changes nothing of.
abbrev pub SameSending : Notify → Notify → Type 0
SameSending s t =
    (t.out_seq ≡ s.out_seq) × (t.out_ack_seq ≡ s.out_ack_seq) × (t.ack_record ≡ s.ack_record)

ack_loop-SameSending :
    (fuel : ℕ) (s : Notify) (acked : ℕ) (is_ack : Bool)
    → SameSending s (ack_loop fuel s acked is_ack)
unfolding ack_loop ack_step
ack_loop-SameSending zero s acked is_ack = (refl, refl, refl)
ack_loop-SameSending (suc fuel) s acked is_ack = elim (Bool-cases (seq_gt acked s.in_ack_seq)) [
  | inl e ↦ rw (e, ack_loop) (ack_loop-SameSending fuel (ack_step s acked is_ack) acked is_ack)
  | inr e ↦ rw (e, ack_loop) (refl, refl, refl)
]

pub ack_seq-SameSending :
    (s : Notify) (acked : ℕ) (is_ack : Bool) → SameSending s (ack_seq s acked is_ack)
unfolding ack_seq
ack_seq-SameSending s acked is_ack = ack_loop-SameSending (2 ^ 13) s acked is_ack

give_up-SameSending : (t : Notify) (new_seq : ℕ) → SameSending t (give_up t new_seq).1
unfolding give_up
give_up-SameSending t new_seq = elim (Bool-cases (seq_ge new_seq t.in_seq)) [
  | inl e ↦ rw (e) (ack_seq-SameSending (record t { in_seq = new_seq }) new_seq false)
  | inr e ↦ rw (e) (refl, refl, refl)
]

pub Outcome-SameSending :
    {s : Notify} {seq : ℕ} {delta : ℤ} {answer : ℤ × Notify}
    → Outcome s seq delta answer
    → SameSending s answer.1
Outcome-SameSending (fits w near) = (refl, refl, refl)
Outcome-SameSending (moved w far idle) = (refl, refl, refl)
Outcome-SameSending {s} (flushed t new_seq vt hn (inl e) waiting reach given) =
    subst (λ u. SameSending u (give_up t new_seq).1) e.1 (give_up-SameSending t new_seq)
Outcome-SameSending {s} (flushed t new_seq vt hn (inr e) waiting reach given) =
    let g = give_up-SameSending t new_seq in
    (
      g.0 ∙ ap (λ u. u.out_seq) e.3,
      g.1 ∙ ap (λ u. u.out_ack_seq) e.3,
      g.2 ∙ ap (λ u. u.ack_record) e.3,
    )
