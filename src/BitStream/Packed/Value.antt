-- ===== src/BitStream/Packed/Value.antt =====
-- The bytes of a packed number, as numbers.
use native.Mathlib.Nat.{pow-suc, add-mul, mul_assoc, mul_comm, mul-le-mul_left}
use rudp_network_engine.Prelude.{
  ℕ, suc, ◌+◌, ◌-◌, ◌*◌, ◌/◌, ◌%◌, ◌^◌, ◌≤◌, ◌<◌, ◌≡◌, sym, ap, ap₂, ◌∙◌, bit_and, bit_or, ◌==◌,
  if◌then◌else◌, arith,
}
use rudp_network_engine.Prelude.Bits.{bit_and-mask, bit_or-disjoint}
use rudp_network_engine.Prelude.Digit.{
  digit, digit-le, digit-bit_and, digit-complement, digit-ones, digit-shl, digit-shr,
  digit-injective,
}
use rudp_network_engine.Prelude.Bits.{bit_and-le}
use rudp_network_engine.BitStream.Copy.{not32, shl32}
use rudp_network_engine.BitStream.Packed.{packed_byte}

-- `Value & ~0x7F`
bit_and-above : (v : ℕ) → v < 2 ^ 32 → bit_and v (not32 0x7F) ≡ v / 2 ^ 7 * 2 ^ 7
bit_and-above v h =
    digit-injective 32 (bit_and v (not32 0x7F)) (v / 2 ^ 7 * 2 ^ 7)
      (omega (arith, bit_and-le v (not32 0x7F))) (omega arith)
      (λ i lt.
        let back : 7 ≤ i → digit (i - 7) (v / 2 ^ 7) ≡ digit i v = λ k.
          let place : i - 7 + 7 ≡ i = omega arith in
          digit-shr (i - 7) 7 v ∙ ap (λ t. digit t v) place in
        ground (
          arith,
          digit-bit_and i v (not32 0x7F),
          digit-complement i 32 0x7F (omega arith),
          digit-ones i 7,
          digit-shl i 7 (v / 2 ^ 7),
          back,
          digit-le i v,
        ))

-- A byte is seven bits of the value above the bit that says whether there are more.
pub packed_byte-sum :
    (v : ℕ) → v < 2 ^ 32 → packed_byte v ≡ v % 2 ^ 7 * 2 + (if v / 2 ^ 7 == 0 then 0 else 1)
unfolding packed_byte
packed_byte-sum v h =
    let more : ℕ = if v / 2 ^ 7 == 0 then 0 else 1 in
    let seven : shl32 (bit_and v 0x7F) 1 ≡ v % 2 ^ 7 * 2 ^ 1 =
      ap (λ t. shl32 t 1) (bit_and-mask 7 v) ∙ omega arith in
    let flag : (if bit_and v (not32 0x7F) == 0 then 0 else 1) ≡ more =
      ground (arith, bit_and-above v h) in
    ap₂ bit_or seven flag ∙ bit_or-disjoint 1 (v % 2 ^ 7) more (ground arith)

pub two_pow-seven : (k : ℕ) → 2 ^ (k + 7) ≡ 128 * 2 ^ k
two_pow-seven k =
    let width : k + 7 ≡ suc (suc (suc (suc (suc (suc (suc k)))))) = omega arith in
    let p = pow-suc 2 in
    ap (λ t. 2 ^ t) width
    ∙ omega (
      arith,
      p k,
      p (suc k),
      p (suc (suc k)),
      p (suc (suc (suc k))),
      p (suc (suc (suc (suc k)))),
      p (suc (suc (suc (suc (suc k))))),
      p (suc (suc (suc (suc (suc (suc k)))))),
    )

-- Seven bits more of the value.
pub seven_more : (v p : ℕ) → v / 2 ^ 7 * (128 * p) + v % 2 ^ 7 * p ≡ v * p
seven_more v p =
    let q = v / 2 ^ 7 in
    let r = v % 2 ^ 7 in
    let whole : q * 128 + r ≡ v = omega arith in
    let moved : q * (128 * p) ≡ q * 128 * p = sym (mul_assoc q 128 p) in
    omega (arith, moved, add-mul (q * 128) r p, ap (λ t. t * p) whole)

pub value_or :
    (v s acc : ℕ)
    → acc < 2 ^ s
    → v * 2 ^ s < 2 ^ 32
    → bit_or (shl32 (v % 2 ^ 7) s) acc ≡ v % 2 ^ 7 * 2 ^ s + acc
value_or v s acc small fits =
    let more = seven_more v (2 ^ s) in
    let plain : v % 2 ^ 7 * 2 ^ s % 2 ^ 32 ≡ v % 2 ^ 7 * 2 ^ s = omega (arith, more) in
    ap (λ t. bit_or t acc) plain ∙ bit_or-disjoint s (v % 2 ^ 7) acc small

pub value-below : (v s acc : ℕ) → acc < 2 ^ s → v % 2 ^ 7 * 2 ^ s + acc < 2 ^ (s + 7)
value-below v s acc small =
    let le : v % 2 ^ 7 ≤ 127 = omega arith in
    omega (arith, two_pow-seven s, mul_comm (v % 2 ^ 7) (2 ^ s), mul-le-mul_left (2 ^ s) le)
