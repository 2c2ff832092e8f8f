-- ===== src/BitStream/Int/Bits.antt =====
-- The bits that the loop of `SerializeInt` writes and reads.
use native.Mathlib.Nat.{pow-suc, one-le-pow, pow-le-pow_right}
use rudp_network_engine.Prelude.{
  ℕ, zero, suc, ◌+◌, ◌-◌, ◌*◌, ◌/◌, ◌%◌, ◌^◌, ◌≤◌, ◌<◌, ◌≡◌, ap, ◌∙◌, true, false, not, List,
  get_or, length, bit_and, bit_or, ◌==◌, if◌then◌else◌, arith, ℕ_discrete,
}
use rudp_network_engine.Prelude.Bits.{
  bit_and-two_pow, bit_or_digit, zero-bit_or, half_mod, mul-two_pow,
}
use rudp_network_engine.Prelude.Digit.{digit, digit-le, digit-shr}
use rudp_network_engine.BitStream.Copy.{byte, bit}
use rudp_network_engine.BitStream.Copy.Masks.{bit-at, bit-store, length-store}
use rudp_network_engine.BitStream.Table.{g_shift}
use rudp_network_engine.BitStream.Table.Bytes.{low_bits, g_shift-two_pow}
use rudp_network_engine.BitStream.Int.{bit_scan_reverse, count_leading_zeros, ceil_log_two, add_bit}

bit_scan_reverse-ge : (k fuel x : ℕ) → k ≤ fuel → 2 ^ k ≤ x → k ≤ bit_scan_reverse fuel x
unfolding bit_scan_reverse
bit_scan_reverse-ge zero fuel x le h = omega arith
bit_scan_reverse-ge (suc k) zero x le h = absurd (omega arith)
bit_scan_reverse-ge (suc k) (suc fuel) x le h = ground (
  arith,
  pow-suc 2 k,
  one-le-pow k 2,
  bit_scan_reverse-ge k fuel (x / 2) (omega arith) (omega (arith, pow-suc 2 k)),
)

bit_scan_reverse-le : (k fuel x : ℕ) → x < 2 ^ suc k → bit_scan_reverse fuel x ≤ k
unfolding bit_scan_reverse
bit_scan_reverse-le k zero x h = omega arith
bit_scan_reverse-le zero (suc fuel) x h = ground (arith, pow-suc 2 0)
bit_scan_reverse-le (suc k) (suc fuel) x h =
    ground (arith, bit_scan_reverse-le k fuel (x / 2) (omega (arith, pow-suc 2 (suc k))))

-- `CeilLogTwo` counts a bit for each power of two below the bound.
pub ceil_log_two-covers :
    (k bound : ℕ) → k < 32 → 2 ^ k < bound → bound ≤ 2 ^ 32 → k < ceil_log_two bound
unfolding ceil_log_two count_leading_zeros
ceil_log_two-covers k bound lt h small =
    let lower =
      bit_scan_reverse-ge (suc k) 64 ((bound - 1) * 2 + 1) (omega arith)
        (omega (arith, pow-suc 2 k)) in
    let upper = bit_scan_reverse-le 32 64 ((bound - 1) * 2 + 1) (omega arith) in
    ground (arith, lower, upper)

digit-add_two_pow :
    (k i a : ℕ) → digit k a ≡ 0 → digit i (a + 2 ^ k) ≡ (if i == k then 1 else digit i a)
digit-add_two_pow zero zero a h = omega arith
digit-add_two_pow zero (suc i) a h =
    let half : (a + 2 ^ 0) / 2 ≡ a / 2 = omega (arith, h) in ap (digit i) half ∙ ground arith
digit-add_two_pow (suc k) zero a h = ground (arith, pow-suc 2 k)
digit-add_two_pow (suc k) (suc i) a h =
    let half : (a + 2 ^ suc k) / 2 ≡ a / 2 + 2 ^ k = omega (arith, pow-suc 2 k) in
    ap (digit i) half ∙ digit-add_two_pow k i (a / 2) h ∙ ground arith

g_shift-low : (i : ℕ) → get_or g_shift (bit_and i 7) 0 ≡ 2 ^ (i % 8)
g_shift-low i = ap (λ t. get_or g_shift t 0) (low_bits i) ∙ g_shift-two_pow (i % 8) (omega arith)

pub length-add_bit : (m : List ℕ) (i : ℕ) → length (add_bit m i) ≡ length m
unfolding add_bit
length-add_bit m i =
    length-store m (i / 2 ^ 3) (byte m (i / 2 ^ 3) + get_or g_shift (bit_and i 7) 0)

-- Adding the power of two of a bit that is 0 sets that bit.
pub bit-add_bit :
    (m : List ℕ) (i j : ℕ)
    → i < 8 * length m
    → bit m i ≡ 0
    → bit (add_bit m i) j ≡ (if j == i then 1 else bit m j)
unfolding add_bit
bit-add_bit m i j h clean =
    let b = byte m (i / 8) in
    let g = get_or g_shift (bit_and i 7) 0 in
    let power = ap (λ t. b + t) (g_shift-low i) in
    let stored = bit-store m (i / 2 ^ 3) (b + g) j (omega arith) in
    elim (ℕ_discrete (j / 8) (i / 8)) [
      | yes e ↦
          let old : bit m j ≡ digit (j % 8) b =
            bit-at m j (i / 8) (j % 8) (omega arith) (omega arith) in
          let sum = ap (digit (j % 8)) power ∙ digit-add_two_pow (i % 8) (j % 8) b clean in
          ground (arith, stored, e, old, sum)
      | no e ↦ ground (arith, stored, e)
    ]

-- One more digit of a number.
pub mod-one_more : (k v : ℕ) → v % 2 ^ suc k ≡ v % 2 ^ k + digit k v * 2 ^ k
mod-one_more zero v = omega arith
mod-one_more (suc k) v = omega (
  arith,
  half_mod (suc k) v,
  half_mod k v,
  mod-one_more k (v / 2),
  mul-two_pow (digit k (v / 2)) k,
)

-- `Value & Mask` is not 0 exactly for a digit that is 1.
pub mask_test :
    (k v : ℕ)
    → k < 32
    → not (bit_and v (2 ^ k % 2 ^ 32) == 0) ≡ (if digit k v == 1 then true else false)
mask_test k v lt =
    let place : 0 + k ≡ k = omega arith in
    let bound = pow-le-pow_right {n = 2} (omega arith) {i = k} {j = 31} (omega arith) in
    let plain : 2 ^ k % 2 ^ 32 ≡ 2 ^ k = omega (arith, bound) in
    let d : bit_and v (2 ^ k % 2 ^ 32) ≡ digit k v * 2 ^ k =
      ap (bit_and v) plain
      ∙ bit_and-two_pow k v
      ∙ ap (λ t. t * 2 ^ k) (digit-shr 0 k v ∙ ap (λ t. digit t v) place) in
    elim (ℕ_discrete (digit k v) 1) [
      | yes e ↦
          let one : bit_and v (2 ^ k % 2 ^ 32) ≡ 2 ^ k = d ∙ ap (λ t. t * 2 ^ k) e ∙ omega arith in
          ground (arith, one, e, one-le-pow k 2)
      | no e ↦
          let none : digit k v ≡ 0 = omega (arith, digit-le k v) in
          let blank : bit_and v (2 ^ k % 2 ^ 32) ≡ 0 = d ∙ ap (λ t. t * 2 ^ k) none ∙ omega arith in
          ground (arith, blank, none)
    ]

-- The masks of the loop.
pub mask_next : (k : ℕ) → 2 ^ k % 2 ^ 32 * 2 % 2 ^ 32 ≡ 2 ^ suc k % 2 ^ 32
mask_next k = omega (arith, pow-suc 2 k)

half_pow : (k : ℕ) → 2 ^ suc k / 2 ≡ 2 ^ k
half_pow k = omega (arith, pow-suc 2 k)

-- `Value |= Mask` with a mask above the value.
pub bit_or-above : (k r : ℕ) → r < 2 ^ k → bit_or r (2 ^ k) ≡ r + 2 ^ k
bit_or-above zero r h =
    let none : r ≡ 0 = omega arith in
    ap (λ t. bit_or t (2 ^ 0)) none ∙ ground (arith, none, zero-bit_or 1)
bit_or-above (suc k) r h = omega (
  arith,
  bit_or_digit r (2 ^ suc k),
  pow-suc 2 k,
  bit_or-above k (r / 2) (omega (arith, pow-suc 2 k)),
  ap (λ t. bit_or (r / 2) t) (half_pow k),
)
