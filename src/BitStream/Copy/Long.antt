-- ===== src/BitStream/Copy/Long.antt =====
-- The copy of more than 8 bits: what holds after each byte that is stored.
use native.Mathlib.Nat.{pow-suc, one-le-pow, mul_comm, mul-le-mul_left, pow-le-pow_right}
use rudp_network_engine.Prelude.{
  ℕ, suc, ◌+◌, ◌-◌, ◌*◌, ◌/◌, ◌%◌, ◌^◌, ◌≤◌, ◌<◌, ◌≡◌, sym, ap, ◌∙◌, subst, List, leb,
  if◌then◌else◌, arith, dec_lt, Bool-cases, inl, inr,
}
use rudp_network_engine.Prelude.Digit.{digit, digit-add, digit-shr}
use rudp_network_engine.BitStream.Copy.{
  byte, bit, shl32, refill, shift_count_of, first_accu, full_loop_of,
}
use rudp_network_engine.BitStream.Copy.Masks.{bit-at, digit-shl32}

-- The accumulator has `c` bits. From its bit `s` on at the start, `off` bits earlier, they are those of
-- the source from `sb` on, and the source byte `si` follows them.
pub record Holds (src : List ℕ) (c s sb off accu si : ℕ) : Type 0 where
  pub small : accu < 2 ^ c
  pub next : 8 * si + s ≡ sb + off + c
  pub held : (i : ℕ) → i < c → s ≤ off + i → digit i accu ≡ bit src (sb + (off + i - s))

two_pow-bound : (c : ℕ) → c < 16 → 2 ^ c ≤ 2 ^ 15
two_pow-bound c h = pow-le-pow_right {n = 2} (omega arith) {i = c} {j = 15} (omega arith)

above : (c x accu : ℕ) → accu < 2 ^ c → x < 2 ^ 8 → x * 2 ^ c + accu < 256 * 2 ^ c
above c x accu small lt =
    let le : x ≤ 255 = omega arith in omega (arith, mul_comm (2 ^ c) x, mul-le-mul_left (2 ^ c) le)

refill-sum :
    (src : List ℕ) (c accu si : ℕ)
    → c < 16
    → accu < 2 ^ c
    → refill src c accu si ≡ (byte src si * 2 ^ c + accu) / 2 ^ 8
unfolding refill
refill-sum src c accu si h small =
    let bound = two_pow-bound c h in
    let over = above c (byte src si) accu small (omega arith) in
    let plain : byte src si * 2 ^ c % 2 ^ 32 ≡ byte src si * 2 ^ c = omega arith in
    let whole : (byte src si * 2 ^ c + accu) % 2 ^ 32 ≡ byte src si * 2 ^ c + accu = omega arith in
    ap (λ t. (t + accu) % 2 ^ 32 / 2 ^ 8) plain ∙ ap (λ t. t / 2 ^ 8) whole

-- One refill moves on by one byte.
pub refill-Holds :
    (src : List ℕ) (c s sb off accu si : ℕ)
    → 8 ≤ c
    → c < 16
    → Holds src c s sb off accu si
    → Holds src c s sb (off + 8) (refill src c accu si) (si + 1)
refill-Holds src c s sb off accu si lo hi inv =
    let x = byte src si in
    let sum = refill-sum src c accu si hi (inv.small) in
    record {
      small = omega (arith, sum, above c x accu (inv.small) (omega arith));
      next = omega (arith, inv.next);
      held = λ i lt le.
          let shifted : digit i (refill src c accu si) ≡ digit (i + 8) (x * 2 ^ c + accu) =
            ap (digit i) sum ∙ digit-shr i 8 (x * 2 ^ c + accu) in
          let split = digit-add (i + 8) c x accu (inv.small) in
          elim (dec_lt (i + 8) c) [
            | yes k ↦
                let place : sb + (off + (i + 8) - s) ≡ sb + (off + 8 + i - s) = omega arith in
                shifted
                ∙ split
                ∙ ground (arith, k)
                ∙ inv.held (i + 8) k (omega arith)
                ∙ ap (bit src) place
            | no k ↦
                let at =
                  bit-at src (sb + (off + 8 + i - s)) si (i + 8 - c) (omega (arith, inv.next))
                    (omega arith) in
                shifted ∙ split ∙ ground (arith, k) ∙ sym at
          ];
    }

two_pow-eight : (k : ℕ) → 2 ^ suc (suc (suc (suc (suc (suc (suc (suc k))))))) ≡ 256 * 2 ^ k
two_pow-eight k =
    let one_more = pow-suc 2 in
    omega (
      arith,
      one_more k,
      one_more (suc k),
      one_more (suc (suc k)),
      one_more (suc (suc (suc k))),
      one_more (suc (suc (suc (suc k)))),
      one_more (suc (suc (suc (suc (suc k))))),
      one_more (suc (suc (suc (suc (suc (suc k)))))),
      one_more (suc (suc (suc (suc (suc (suc (suc k))))))),
    )

-- The first byte of the source, shifted by `k`.
first-Holds :
    (src : List ℕ) (k sb s : ℕ)
    → k < 8
    → k + sb % 8 ≡ s
    → Holds src (k + 8) s sb 0 (shl32 (byte src (sb / 8)) k) (sb / 8 + 1)
first-Holds src k sb s hi e =
    let x = byte src (sb / 8) in
    let width : suc (suc (suc (suc (suc (suc (suc (suc k))))))) ≡ k + 8 = omega arith in
    let bound = two_pow-bound k (omega arith) in
    let over = above k x 0 (omega (arith, one-le-pow k 2)) (omega arith) in
    let plain : x * 2 ^ k % 2 ^ 32 ≡ x * 2 ^ k = omega arith in
    record {
      small = subst (λ t. shl32 x k < 2 ^ t) width (omega (arith, two_pow-eight k));
      next = omega arith;
      held = λ i lt le.
          let at = bit-at src (sb + (0 + i - s)) (sb / 8) (i - k) (omega arith) (omega arith) in
          digit-shl32 i x k (omega arith) ∙ ground (arith) ∙ sym at;
    }

-- The place where a byte starts is 8 further on both sides.
rebase :
    (src : List ℕ) (c s sb off accu si : ℕ)
    → Holds src c (s + 8) sb (off + 8) accu si
    → Holds src c s sb off accu si
rebase src c s sb off accu si inv = record {
  small = inv.small;
  next = omega (arith, inv.next);
  held = λ i lt le.
      let place : sb + (off + 8 + i - (s + 8)) ≡ sb + (off + i - s) = omega arith in
      inv.held i lt (omega arith) ∙ ap (bit src) place;
}

pub first_accu-Holds :
    (src : List ℕ) (db sb : ℕ)
    → Holds src
        (shift_count_of db sb)
        (db % 8)
        sb
        0
        (first_accu src db sb)
        ((if leb (sb % 8) (db % 8) then sb / 8 else sb / 8 + 1) + 1)
unfolding first_accu
first_accu-Holds src db sb = elim (Bool-cases (leb (sb % 8) (db % 8))) [
  | inl t ↦ rw (t) (first-Holds src (db % 8 - sb % 8) sb (db % 8) (omega arith) (ground (arith, t)))
  | inr t ↦
      let k = 8 + db % 8 - sb % 8 in
      let lt : db % 8 < sb % 8 = ground (arith, t) in
      rw (t) (
        rebase src (k + 8) (db % 8) sb 0
          (refill src (k + 8) (shl32 (byte src (sb / 8)) k) (sb / 8 + 1)) (sb / 8 + 1 + 1)
          (refill-Holds src (k + 8) (db % 8 + 8) sb 0 (shl32 (byte src (sb / 8)) k) (sb / 8 + 1)
            (omega arith) (omega arith)
            (first-Holds src k sb (db % 8 + 8) (omega arith) (omega arith))))
]

pub shift_count-range : (db sb : ℕ) → (8 ≤ shift_count_of db sb) × (shift_count_of db sb < 16)
shift_count-range db sb = ground arith

pub full_loop_of-dest : (db sb n : ℕ) → 8 < n → full_loop_of db sb n ≡ (db + n) / 8 - db / 8
unfolding full_loop_of
full_loop_of-dest db sb n h = ground arith
