-- ===== src/Sequence/History/Bit.antt =====
-- Single bits of a 32-bit word, as arithmetic.
use native.Mathlib.Nat.{one-le-pow}
use rudp_network_engine.Prelude.{
  ℕ, zero, suc, ◌+◌, ◌*◌, ◌/◌, ◌%◌, ◌^◌, ◌<◌, ◌≡◌, arith, bit_or, bit_and, ◌==◌,
}
use rudp_network_engine.Prelude.Bits.{bit_and-two_pow, bit_or-disjoint, half_div, half_mod}
use rudp_network_engine.Sequence.History.{word_bit}

-- Bit `k` is set exactly when the quotient by `2 ^ k` is odd.
pub word_bit-odd : (k w : ℕ) → word_bit k w ≡ (w / 2 ^ k % 2 == 1)
unfolding word_bit
word_bit-odd k w = ground (arith, bit_and-two_pow k w, one-le-pow k 2, twice (w / 2 ^ k % 2))
  where
    twice : (q : ℕ) → (q ≡ 1) → q * 2 ^ k ≡ 2 ^ k
    twice q e = grind arith

pub odd-mod-pow : (k n w : ℕ) → k < n → w % 2 ^ n / 2 ^ k % 2 ≡ w / 2 ^ k % 2
odd-mod-pow k zero w h = absurd (omega arith)
odd-mod-pow zero (suc n) w h = ground (arith, half_mod n w)
odd-mod-pow (suc k) (suc n) w h = ground (
  arith,
  half_mod n w,
  half_div k w,
  half_div k (w % 2 ^ suc n),
  odd-mod-pow k n (w / 2) (omega arith),
)

-- The word that the loop stores: shifted left by one, the carry below.
pub shifted_word : (w c : ℕ) → c < 2 → bit_or (w * 2 % 2 ^ 32) c ≡ w % 2 ^ 31 * 2 + c
shifted_word w c h =
    let e : w * 2 % 2 ^ 32 ≡ w % 2 ^ 31 * 2 ^ 1 = omega arith in
    rw e (bit_or-disjoint 1 (w % 2 ^ 31) c h)

pub carry_out : (w : ℕ) → bit_and w (2 ^ 31) / 2 ^ 31 ≡ w / 2 ^ 31 % 2
carry_out w = omega (arith, bit_and-two_pow 31 w)

pub word_bit-shifted-zero : (w c : ℕ) → c < 2 → word_bit 0 (bit_or (w * 2 % 2 ^ 32) c) ≡ (c == 1)
word_bit-shifted-zero w c h =
    ground (arith, word_bit-odd 0 (bit_or (w * 2 % 2 ^ 32) c), shifted_word w c h)

pub word_bit-shifted-suc :
    (k w c : ℕ) → c < 2 → k < 31 → word_bit (suc k) (bit_or (w * 2 % 2 ^ 32) c) ≡ word_bit k w
word_bit-shifted-suc k w c h lt = ground (
  arith,
  word_bit-odd (suc k) (bit_or (w * 2 % 2 ^ 32) c),
  word_bit-odd k w,
  shifted_word w c h,
  half_div k (bit_or (w * 2 % 2 ^ 32) c),
  odd-mod-pow k 31 w lt,
)
