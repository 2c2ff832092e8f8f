-- ===== src/Prelude/Bits.antt =====
-- `&` with a low mask or a single bit, and `|` of disjoint fields, as arithmetic on the native
-- numbers, at every width.
use Prim.Native.Nat.{
  ℕ, zero, suc, ◌+◌, ◌-◌, ◌*◌, ◌/◌, ◌%◌, ◌^◌, ◌≤◌, ◌<◌, min, max, bit_and, bit_or, bitwise, digits,
  bit_and-bitwise, bit_or-bitwise,
}
use mathlib.Core.Path.{◌≡◌, refl, sym, ap, ◌∙◌}
use native.Mathlib.Nat.{pow-suc, one-le-pow, mul_comm, div-add-mod, div-div-eq-div-mul}
use native.Mathlib.Omega.{arith}

-- Any fuel from `a` on gives the same digits.
fuel_irrelevant :
    (z : ℕ → ℕ) (f : ℕ → ℕ → ℕ) (n m a b : ℕ) → a ≤ n → a ≤ m → digits z f n a b ≡ digits z f m a b
fuel_irrelevant z f n m zero b p q = zero_digits n ∙ sym_zero m
  where
    zero_digits : (k : ℕ) → digits z f k 0 b ≡ z b
    zero_digits zero = refl
    zero_digits (suc k) = refl

    sym_zero : (k : ℕ) → z b ≡ digits z f k 0 b
    sym_zero zero = refl
    sym_zero (suc k) = refl
fuel_irrelevant z f zero m (suc a) b p q = absurd (omega arith)
fuel_irrelevant z f (suc n) zero (suc a) b p q = absurd (omega arith)
fuel_irrelevant z f (suc n) (suc m) (suc a) b p q =
    ap (λ t. t * 2 + f (suc a % 2) (b % 2))
      (fuel_irrelevant z f n m (suc a / 2) (b / 2) (omega arith) (omega arith))

bitwise_digit :
    (z : ℕ → ℕ) (f : ℕ → ℕ → ℕ) (a b : ℕ)
    → bitwise z f (suc a) b ≡ bitwise z f (suc a / 2) (b / 2) * 2 + f (suc a % 2) (b % 2)
bitwise_digit z f a b =
    ap (λ t. t * 2 + f (suc a % 2) (b % 2))
      (fuel_irrelevant z f a (suc a / 2) (suc a / 2) (b / 2) (omega arith) (omega arith))

-- The lowest binary digit split off.
pub bit_and_digit : (a b : ℕ) → bit_and a b ≡ bit_and (a / 2) (b / 2) * 2 + min (a % 2) (b % 2)
bit_and_digit zero b = simp bit_and-bitwise (omega arith)
bit_and_digit (suc a) b = simp bit_and-bitwise (bitwise_digit (λ y. 0) min a b)

pub bit_or_digit : (a b : ℕ) → bit_or a b ≡ bit_or (a / 2) (b / 2) * 2 + max (a % 2) (b % 2)
bit_or_digit zero b = simp bit_or-bitwise (omega arith)
bit_or_digit (suc a) b = simp bit_or-bitwise (bitwise_digit (λ y. y) max a b)

bit_and-zero_below : (n a : ℕ) → a < n → bit_and a 0 ≡ 0
bit_and-zero_below zero a h = absurd (omega arith)
bit_and-zero_below (suc n) zero h = refl
bit_and-zero_below (suc n) (suc a) h =
    omega (arith, bit_and_digit (suc a) 0, bit_and-zero_below n (suc a / 2) (omega arith))

pub bit_and-zero : (a : ℕ) → bit_and a 0 ≡ 0
bit_and-zero a = bit_and-zero_below (suc a) a (omega arith)

bit_or-zero_below : (n a : ℕ) → a < n → bit_or a 0 ≡ a
bit_or-zero_below zero a h = absurd (omega arith)
bit_or-zero_below (suc n) zero h = refl
bit_or-zero_below (suc n) (suc a) h =
    omega (arith, bit_or_digit (suc a) 0, bit_or-zero_below n (suc a / 2) (omega arith))

pub bit_or-zero : (a : ℕ) → bit_or a 0 ≡ a
bit_or-zero a = bit_or-zero_below (suc a) a (omega arith)

pub zero-bit_or : (a : ℕ) → bit_or 0 a ≡ a
zero-bit_or a = simp bit_or-bitwise (refl)

-- `a & 1`.
pub bit_and-one : (a : ℕ) → bit_and a 1 ≡ a % 2
bit_and-one a = omega (arith, bit_and_digit a 1, bit_and-zero (a / 2))

pub mul-two_pow : (q k : ℕ) → q * 2 ^ suc k ≡ 2 * (q * 2 ^ k)
mul-two_pow q k = omega (arith, ap (λ (t : ℕ). q * t) (pow-suc 2 k))

pub half_div : (k a : ℕ) → a / 2 ^ suc k ≡ a / 2 / 2 ^ k
half_div k a =
    ap (λ t. a / t) (pow-suc 2 k ∙ mul_comm (2 ^ k) 2) ∙ sym (div-div-eq-div-mul a 2 (2 ^ k))

-- `a & (1 << k)` keeps the k-th bit in its place.
pub bit_and-two_pow : (k a : ℕ) → bit_and a (2 ^ k) ≡ a / 2 ^ k % 2 * 2 ^ k
bit_and-two_pow zero a = omega (arith, bit_and-one a)
bit_and-two_pow (suc k) a = ground (
  arith,
  bit_and_digit a (2 ^ suc k),
  pow-suc 2 k,
  half_div k a,
  mul-two_pow (a / 2 ^ suc k % 2) k,
  bit_and-two_pow k (a / 2),
)

-- The remainder by `1 << k` without its lowest digit.
pub half_mod : (k a : ℕ) → a % 2 ^ suc k ≡ a / 2 % 2 ^ k * 2 + a % 2
half_mod k a = ground (
  arith,
  half_div k a,
  mul-two_pow (a / 2 ^ suc k) k,
  div-add-mod a (2 ^ suc k),
  div-add-mod (a / 2) (2 ^ k),
  mul_comm (2 ^ k) (a / 2 / 2 ^ k),
  mul_comm (2 ^ suc k) (a / 2 ^ suc k),
)

-- `a & ((1 << k) - 1)` is the remainder by `1 << k`.
pub bit_and-mask : (k a : ℕ) → bit_and a (2 ^ k - 1) ≡ a % 2 ^ k
bit_and-mask zero a = omega (arith, bit_and-zero a)
bit_and-mask (suc k) a = ground (
  arith,
  bit_and_digit a (2 ^ suc k - 1),
  pow-suc 2 k,
  one-le-pow k 2,
  half_mod k a,
  bit_and-mask k (a / 2),
)

-- `(q << k) | r` is a sum when `r` fits in `k` bits.
pub bit_or-disjoint : (k q r : ℕ) → r < 2 ^ k → bit_or (q * 2 ^ k) r ≡ q * 2 ^ k + r
bit_or-disjoint zero q r h = ground (arith, bit_or-zero q)
bit_or-disjoint (suc k) q r h = ground (
  arith,
  bit_or_digit (q * 2 ^ suc k) r,
  mul-two_pow q k,
  pow-suc 2 k,
  bit_or-disjoint k q (r / 2) (omega (arith, pow-suc 2 k)),
)

bit_and-le_below : (n a b : ℕ) → a < n → bit_and a b ≤ a
bit_and-le_below zero a b h = absurd (omega arith)
bit_and-le_below (suc n) zero b h = simp bit_and-bitwise (omega arith)
bit_and-le_below (suc n) (suc a) b h =
    omega (arith, bit_and_digit (suc a) b, bit_and-le_below n (suc a / 2) (b / 2) (omega arith))

pub bit_and-le : (a b : ℕ) → bit_and a b ≤ a
bit_and-le a b = bit_and-le_below (suc a) a b (omega arith)
