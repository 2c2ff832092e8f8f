-- ===== src/Prelude/Digit.antt =====
-- The binary digits of a native number, and the digits of what masks and shifts compute.
use Prim.Native.Nat.{min, max, bit_and, bit_or}
use native.Mathlib.Nat.{pow-suc, one-le-pow}
use rudp_network_engine.Prelude.{
  ℕ, zero, suc, ◌+◌, ◌-◌, ◌*◌, ◌/◌, ◌%◌, ◌^◌, ◌≤◌, ◌<◌, ◌≡◌, refl, ap, ◌∙◌, ltb, if◌then◌else◌,
  arith,
}
use rudp_network_engine.Prelude.Bits.{bit_and_digit, bit_or_digit, half_div, half_mod, mul-two_pow}

-- The digit of `w` at the place `i`.
abbrev pub digit : ℕ → ℕ → ℕ
digit zero w = w % 2
digit (suc i) w = digit i (w / 2)

pub digit-le : (i w : ℕ) → digit i w ≤ 1
digit-le zero w = omega arith
digit-le (suc i) w = digit-le i (w / 2)

pub digit-zero : (i : ℕ) → digit i 0 ≡ 0
digit-zero zero = refl
digit-zero (suc i) = digit-zero i

pub digit-bit_and : (i a b : ℕ) → digit i (bit_and a b) ≡ min (digit i a) (digit i b)
digit-bit_and zero a b = omega (arith, bit_and_digit a b)
digit-bit_and (suc i) a b =
    let half : bit_and a b / 2 ≡ bit_and (a / 2) (b / 2) = omega (arith, bit_and_digit a b) in
    ap (digit i) half ∙ digit-bit_and i (a / 2) (b / 2)

pub digit-bit_or : (i a b : ℕ) → digit i (bit_or a b) ≡ max (digit i a) (digit i b)
digit-bit_or zero a b = omega (arith, bit_or_digit a b)
digit-bit_or (suc i) a b =
    let half : bit_or a b / 2 ≡ bit_or (a / 2) (b / 2) = omega (arith, bit_or_digit a b) in
    ap (digit i) half ∙ digit-bit_or i (a / 2) (b / 2)

-- `q << s` with `r` in the places below.
pub digit-add :
    (i s q r : ℕ)
    → r < 2 ^ s
    → digit i (q * 2 ^ s + r) ≡ (if ltb i s then digit i r else digit (i - s) q)
digit-add i zero q r h = ground (arith)
digit-add zero (suc s) q r h = ground (arith, mul-two_pow q s)
digit-add (suc i) (suc s) q r h =
    let half : (q * 2 ^ suc s + r) / 2 ≡ q * 2 ^ s + r / 2 = omega (arith, mul-two_pow q s) in
    ap (digit i) half ∙ digit-add i s q (r / 2) (omega (arith, pow-suc 2 s)) ∙ ground arith

pub digit-shl : (i s q : ℕ) → digit i (q * 2 ^ s) ≡ (if ltb i s then 0 else digit (i - s) q)
digit-shl i s q =
    let plain : q * 2 ^ s ≡ q * 2 ^ s + 0 = omega arith in
    ap (digit i) plain
    ∙ digit-add i s q 0 (omega (arith, one-le-pow s 2))
    ∙ ground (arith, digit-zero i)

pub digit-shr : (i s w : ℕ) → digit i (w / 2 ^ s) ≡ digit (i + s) w
digit-shr i zero w =
    let place : i ≡ i + 0 = omega arith in
    let plain : w / 2 ^ 0 ≡ w = omega arith in ap (digit i) plain ∙ ap (λ n. digit n w) place
digit-shr i (suc s) w =
    let place : suc (i + s) ≡ i + suc s = omega arith in
    ap (digit i) (half_div s w) ∙ digit-shr i s (w / 2) ∙ ap (λ n. digit n w) place

pub digit-mod : (i n w : ℕ) → digit i (w % 2 ^ n) ≡ (if ltb i n then digit i w else 0)
digit-mod i zero w = ground (arith, digit-zero i)
digit-mod zero (suc n) w = ground (arith, half_mod n w)
digit-mod (suc i) (suc n) w =
    let half : w % 2 ^ suc n / 2 ≡ w / 2 % 2 ^ n = omega (arith, half_mod n w) in
    ap (digit i) half ∙ digit-mod i n (w / 2) ∙ ground arith

-- The mask of `n` ones without the digits of `w`.
pub digit-complement :
    (i n w : ℕ) → w < 2 ^ n → digit i (2 ^ n - 1 - w) ≡ (if ltb i n then 1 - digit i w else 0)
digit-complement i zero w h = ground (arith, digit-zero i)
digit-complement zero (suc n) w h = ground (arith, pow-suc 2 n, one-le-pow n 2)
digit-complement (suc i) (suc n) w h =
    let half : (2 ^ suc n - 1 - w) / 2 ≡ 2 ^ n - 1 - w / 2 = omega (arith, pow-suc 2 n) in
    ap (digit i) half ∙ digit-complement i n (w / 2) (omega (arith, pow-suc 2 n)) ∙ ground arith

pub digit-ones : (i n : ℕ) → digit i (2 ^ n - 1) ≡ (if ltb i n then 1 else 0)
digit-ones i n =
    ap (digit i) (omega arith)
    ∙ digit-complement i n 0 (omega (arith, one-le-pow n 2))
    ∙ ground (arith, digit-zero i)

pub digit-small : (i n w : ℕ) → w < 2 ^ n → n ≤ i → digit i w ≡ 0
digit-small i zero w h k = ap (digit i) (omega arith) ∙ digit-zero i
digit-small zero (suc n) w h k = absurd (omega arith)
digit-small (suc i) (suc n) w h k =
    digit-small i n (w / 2) (omega (arith, pow-suc 2 n)) (omega arith)

-- Numbers with the same digits below `n` are the same.
pub digit-injective :
    (n a b : ℕ) → a < 2 ^ n → b < 2 ^ n → ((i : ℕ) → i < n → digit i a ≡ digit i b) → a ≡ b
digit-injective zero a b h k same = omega arith
digit-injective (suc n) a b h k same = omega (
  arith,
  same 0 (omega arith),
  digit-injective n (a / 2) (b / 2) (omega (arith, pow-suc 2 n)) (omega (arith, pow-suc 2 n))
      (λ i lt. same (suc i) (omega arith)),
)
