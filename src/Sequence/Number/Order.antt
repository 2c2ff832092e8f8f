-- ===== src/Sequence/Number/Order.antt =====
-- The comparisons and `Diff` of SequenceNumber.h as one cyclic order on the 14-bit numbers.
use rudp_network_engine.Prelude.{ℕ, ◌+◌, ◌%◌, ◌^◌, ◌<◌, ◌≡◌, ◌↔◌, true, arith}
use rudp_network_engine.Prelude.Int.{ℤ, pos, negsuc, pos_part, neg_part, ◌≤ℤ◌, ltb_ℤ}
use rudp_network_engine.Sequence.Number.{
  IsSeq, distance, seq_gt, seq_ge, seq_lt, seq_le, seq_add, seq_sub, diff,
}
use rudp_network_engine.Sequence.Number.Arithmetic.{
  distance_cases, diff-distance, make_seq-mod, seq_sub-mod,
}

-- For sequence numbers `a` and `b`, `Diff(a, b)` is the one number of -8192 to 8191 that leads
-- from `b` to `a` modulo 2 ^ 14: it lies in that range, and any `d` of the range equals it exactly
-- when `b + d` is `a` modulo 2 ^ 14.
diff_iff :
    (a b : ℕ) (d : ℤ)
    → IsSeq a
    → IsSeq b
    → (negsuc 8191 ≤ℤ d)
    → (d ≤ℤ pos 8191)
    → (negsuc 8191 ≤ℤ diff a b)
      × (diff a b ≤ℤ pos 8191)
      × ((diff a b ≡ d) ↔ ((b + pos_part d) % 2 ^ 14 ≡ (a + neg_part d) % 2 ^ 14))
diff_iff a b (pos n) ha hb lo hi = ground (arith, diff-distance a b, distance_cases a b ha hb)
diff_iff a b (negsuc n) ha hb lo hi = ground (arith, diff-distance a b, distance_cases a b ha hb)

-- For sequence numbers the comparisons are the signs of `Diff`.
pub seq_order-diff :
    (a b : ℕ)
    → IsSeq a
    → IsSeq b
    → (seq_gt a b ≡ ltb_ℤ (pos 0) (diff a b))
      × (seq_lt a b ≡ ltb_ℤ (diff a b) (pos 0))
      × ((seq_ge a b ≡ true) ↔ (pos 0 ≤ℤ diff a b))
      × ((seq_le a b ≡ true) ↔ (diff a b ≤ℤ pos 0))
unfolding seq_gt seq_ge seq_lt seq_le
seq_order-diff a b ha hb = (
  ground (arith, diff-distance a b, distance_cases a b ha hb),
  ground (arith, diff-distance a b, distance_cases a b ha hb),
  ground (arith, diff-distance a b, distance_cases a b ha hb),
  ground (arith, diff-distance a b, distance_cases a b ha hb),
)

-- The order is not antisymmetric: two sequence numbers are each less than the other exactly when
-- they lie half the range, 8192, apart.
seq_lt_both_iff :
    (a b : ℕ)
    → IsSeq a
    → IsSeq b
    → ((seq_lt a b ≡ true) × (seq_lt b a ≡ true)) ↔ (distance a b ≡ 2 ^ 13)
unfolding seq_lt seq_ge
seq_lt_both_iff a b ha hb = ground (arith, distance_cases a b ha hb, distance_cases b a hb ha)

-- Within a window of less than half the range the order is transitive.
seq_gt_trans :
    (a b c : ℕ)
    → IsSeq a
    → IsSeq b
    → IsSeq c
    → distance a b + distance b c < 2 ^ 13
    → seq_gt a b ≡ true
    → seq_gt b c ≡ true
    → (seq_gt a c ≡ true) × (distance a c ≡ distance a b + distance b c)
unfolding seq_gt
seq_gt_trans a b c ha hb hc h p q =
    ground (arith, distance_cases a b ha hb, distance_cases b c hb hc, distance_cases a c ha hc)

-- Adding fewer than 8192 to a sequence number, across the wrap or not, gives a greater one at that
-- `Diff`, and subtracting the same comes back.
seq_add-diff :
    (a k : ℕ)
    → IsSeq a
    → 0 < k
    → k < 2 ^ 13
    → (diff (seq_add a k) a ≡ pos k)
      × (seq_gt (seq_add a k) a ≡ true)
      × (seq_sub (seq_add a k) k ≡ a)
unfolding seq_gt
seq_add-diff a k ha pos_k hk =
    let e : seq_add a k ≡ (a + k) % 2 ^ 14 = unfold seq_add in make_seq-mod (a + k) in
    let s : IsSeq (seq_add a k) = omega (arith, e) in
    ground (
      arith,
      e,
      diff-distance (seq_add a k) a s ha,
      distance_cases (seq_add a k) a s ha,
      seq_sub-mod (seq_add a k) k (omega arith),
    )
