-- ===== src/Sequence/Number/Arithmetic.antt =====
-- What the masks and shifts of SequenceNumber.h compute, in the form that `omega` reads.
use rudp_network_engine.Prelude.{
  ℕ, ◌+◌, ◌-◌, ◌%◌, ◌^◌, ◌≤◌, ◌<◌, ◌≡◌, ◌⊎◌, ◌↔◌, true, ltb, if◌then◌else◌, arith,
}
use rudp_network_engine.Prelude.Bits.{bit_and-mask}
use rudp_network_engine.Prelude.Int.{pos, negsuc}
use rudp_network_engine.Sequence.Number.{
  IsSeq, sub32, make_seq, distance, increment, seq_sub, diff, seq_gt, seq_ge,
}

pub make_seq-mod : (v : ℕ) → make_seq v ≡ v % 2 ^ 14
unfolding make_seq
make_seq-mod v = omega (arith, bit_and-mask 14 (v % 2 ^ 16))

pub distance-mod : (a b : ℕ) → distance a b ≡ (a + 2 ^ 32 - b) % 2 ^ 32 % 2 ^ 14
unfolding distance
distance-mod a b = bit_and-mask 14 (sub32 a b)

-- On sequence numbers the distance is the number of increments from `b` up to `a`.
pub distance_cases :
    (a b : ℕ)
    → IsSeq a
    → IsSeq b
    → ((b ≤ a) × (distance a b + b ≡ a)) ⊎ ((a < b) × (distance a b + b ≡ a + 2 ^ 14))
distance_cases a b ha hb = ground (arith, distance-mod a b)

pub distance-lt : (a b : ℕ) → distance a b < 2 ^ 14
distance-lt a b = omega (arith, distance-mod a b)

pub increment-mod : (a : ℕ) → increment a ≡ (a + 1) % 2 ^ 14
unfolding increment
increment-mod a = make_seq-mod (a + 1)

pub increment-IsSeq : (a : ℕ) → IsSeq (increment a)
increment-IsSeq a = omega (arith, increment-mod a)

pub make_seq-IsSeq : (a : ℕ) → IsSeq (make_seq a)
make_seq-IsSeq a = omega (arith, make_seq-mod a)

pub seq_sub-mod : (a b : ℕ) → b ≤ 2 ^ 32 → seq_sub a b ≡ (a + 2 ^ 32 - b) % 2 ^ 14
unfolding seq_sub
seq_sub-mod a b h = omega (arith, make_seq-mod (sub32 a b))

-- `Diff` reads the distance as a signed 14-bit number.
pub diff-distance :
    (a b : ℕ)
    → IsSeq a
    → IsSeq b
    → diff a b ≡ (
        if ltb (distance a b) (2 ^ 13)
        then pos (distance a b)
        else negsuc (2 ^ 14 - distance a b - 1))
unfolding diff
diff-distance a b ha hb = ground (arith, distance-mod a b)

-- A greater number lies at a distance from 1 to 8191.
pub seq_gt_iff :
    (a b : ℕ)
    → IsSeq a
    → IsSeq b
    → (seq_gt a b ≡ true) ↔ ((0 < distance a b) × (distance a b < 2 ^ 13))
unfolding seq_gt
seq_gt_iff a b ha hb = ground (arith, distance_cases a b ha hb)

pub seq_gt-distance :
    (a b : ℕ) → seq_gt a b ≡ true → IsSeq a → IsSeq b → (0 < distance a b) × (distance a b < 2 ^ 13)
seq_gt-distance a b h ha hb = (seq_gt_iff a b ha hb).0 h

pub seq_ge_iff : (a b : ℕ) → (seq_ge a b ≡ true) ↔ (distance a b < 2 ^ 13)
unfolding seq_ge
seq_ge_iff a b = ground arith

-- A non-negative `Diff` is the distance.
pub diff-pos : (a b : ℕ) → IsSeq a → IsSeq b → distance a b < 2 ^ 13 → diff a b ≡ pos (distance a b)
diff-pos a b ha hb h = ground (arith, diff-distance a b ha hb)
