-- ===== src/BitStream/Table/Bytes.antt =====
-- The bits of the tables' entries and of an integer in memory.
use native.Mathlib.Nat.{pow-le-pow_right}
use rudp_network_engine.Prelude.{
  ℕ, zero, suc, ◌+◌, ◌-◌, ◌*◌, ◌/◌, ◌%◌, ◌^◌, ◌<◌, ◌≡◌, refl, sym, ap, ◌∙◌, List, [], ◌∷◌, get_or,
  length, bit_and, ltb, ◌==◌, if◌then◌else◌, arith,
}
use rudp_network_engine.Prelude.Bits.{bit_and-mask, bit_and-two_pow}
use rudp_network_engine.Prelude.Digit.{
  digit, digit-add, digit-shl, digit-shr, digit-ones, digit-zero,
}
use rudp_network_engine.BitStream.Copy.{byte, bit}
use rudp_network_engine.BitStream.Copy.Masks.{digit-byte}
use rudp_network_engine.BitStream.Table.{g_shift, g_mask, le_bytes, le_value}

pub g_shift-two_pow : (i : ℕ) → i < 8 → get_or g_shift i 0 ≡ 2 ^ i
g_shift-two_pow zero h = refl
g_shift-two_pow (suc zero) h = refl
g_shift-two_pow (suc (suc zero)) h = refl
g_shift-two_pow (suc (suc (suc zero))) h = refl
g_shift-two_pow (suc (suc (suc (suc zero)))) h = refl
g_shift-two_pow (suc (suc (suc (suc (suc zero))))) h = refl
g_shift-two_pow (suc (suc (suc (suc (suc (suc zero)))))) h = refl
g_shift-two_pow (suc (suc (suc (suc (suc (suc (suc zero))))))) h = refl
g_shift-two_pow (suc (suc (suc (suc (suc (suc (suc (suc i)))))))) h = absurd (omega arith)

g_mask-ones : (i : ℕ) → i < 8 → get_or g_mask i 0 ≡ 2 ^ i - 1
g_mask-ones zero h = refl
g_mask-ones (suc zero) h = refl
g_mask-ones (suc (suc zero)) h = refl
g_mask-ones (suc (suc (suc zero))) h = refl
g_mask-ones (suc (suc (suc (suc zero)))) h = refl
g_mask-ones (suc (suc (suc (suc (suc zero))))) h = refl
g_mask-ones (suc (suc (suc (suc (suc (suc zero)))))) h = refl
g_mask-ones (suc (suc (suc (suc (suc (suc (suc zero))))))) h = refl
g_mask-ones (suc (suc (suc (suc (suc (suc (suc (suc i)))))))) h = absurd (omega arith)

-- `Pos & 7`
pub low_bits : (pos : ℕ) → bit_and pos 7 ≡ pos % 8
low_bits pos = bit_and-mask 3 pos

pub digit-two_pow : (i k : ℕ) → digit i (2 ^ k) ≡ (if i == k then 1 else 0)
digit-two_pow i k =
    let plain : 2 ^ k ≡ 1 * 2 ^ k = omega arith in
    ap (digit i) plain ∙ digit-shl i k 1 ∙ ground (arith, digit-ones (i - k) 1)

pub digit-g_shift :
    (i pos : ℕ) → digit i (get_or g_shift (bit_and pos 7) 0) ≡ (if i == pos % 8 then 1 else 0)
digit-g_shift i pos =
    ap (λ t. digit i (get_or g_shift t 0)) (low_bits pos)
    ∙ ap (digit i) (g_shift-two_pow (pos % 8) (omega arith))
    ∙ digit-two_pow i (pos % 8)

pub digit-g_mask :
    (i pos : ℕ) → digit i (get_or g_mask (bit_and pos 7) 0) ≡ (if ltb i (pos % 8) then 1 else 0)
digit-g_mask i pos =
    ap (λ t. digit i (get_or g_mask t 0)) (low_bits pos)
    ∙ ap (digit i) (g_mask-ones (pos % 8) (omega arith))
    ∙ digit-ones i (pos % 8)

-- `b & Shift(k)` is the bit in its place.
pub masked-digit : (k a : ℕ) → k < 8 → bit_and a (2 ^ k % 2 ^ 8) ≡ digit k a * 2 ^ k
masked-digit k a h =
    let bound = pow-le-pow_right {n = 2} (omega arith) {i = k} {j = 7} (omega arith) in
    let plain : 2 ^ k % 2 ^ 8 ≡ 2 ^ k = omega (arith, bound) in
    let place : 0 + k ≡ k = omega arith in
    ap (bit_and a) plain
    ∙ bit_and-two_pow k a
    ∙ ap (λ t. t * 2 ^ k) (digit-shr 0 k a ∙ ap (λ t. digit t a) place)

digit-le_bytes :
    (k q i v : ℕ)
    → i < 8
    → digit i (byte (le_bytes k v) q) ≡ (if ltb q k then digit (8 * q + i) v else 0)
digit-le_bytes zero q i v h = digit-zero i ∙ ground arith
digit-le_bytes (suc k) zero i v h =
    let place : i ≡ 8 * 0 + i = omega arith in
    let plain : v % 2 ^ 8 % 2 ^ 8 ≡ v % 2 ^ 8 = omega arith in
    ap (digit i) plain ∙ digit-byte i v h ∙ ap (λ t. digit t v) place ∙ ground arith
digit-le_bytes (suc k) (suc q) i v h =
    let place : 8 * q + i + 8 ≡ 8 * suc q + i = omega arith in
    let moved = digit-shr (8 * q + i) 8 v ∙ ap (λ t. digit t v) place in
    digit-le_bytes k q i (v / 2 ^ 8) h ∙ ground (arith, moved)

-- The bits of an integer in memory.
pub bit-le_bytes : (k v j : ℕ) → bit (le_bytes k v) j ≡ (if ltb j (8 * k) then digit j v else 0)
bit-le_bytes k v j =
    let place : 8 * (j / 8) + j % 8 ≡ j = omega arith in
    digit-le_bytes k (j / 8) (j % 8) v (omega arith) ∙ ground (arith, ap (λ t. digit t v) place)

pub length-le_bytes : (k v : ℕ) → length (le_bytes k v) ≡ k
length-le_bytes zero v = refl
length-le_bytes (suc k) v = ap suc (length-le_bytes k (v / 2 ^ 8))

digit-le_value :
    (bs : List ℕ) (q i : ℕ) → i < 8 → digit (8 * q + i) (le_value bs) ≡ digit i (byte bs q)
digit-le_value [] q i h = digit-zero (8 * q + i) ∙ sym (digit-zero i)
digit-le_value (b ∷ bs) zero i h =
    let split = digit-add (8 * 0 + i) 8 (le_value bs) (b % 2 ^ 8) (omega arith) in
    let place : 8 * 0 + i ≡ i = omega arith in
    split ∙ ground (arith, ap (λ t. digit t (b % 2 ^ 8)) place)
digit-le_value (b ∷ bs) (suc q) i h =
    let split = digit-add (8 * suc q + i) 8 (le_value bs) (b % 2 ^ 8) (omega arith) in
    let place : 8 * suc q + i - 8 ≡ 8 * q + i = omega arith in
    split ∙ ground (arith, ap (λ t. digit t (le_value bs)) place, digit-le_value bs q i h)

pub bit-le_value : (bs : List ℕ) (j : ℕ) → digit j (le_value bs) ≡ bit bs j
bit-le_value bs j =
    let place : j ≡ 8 * (j / 8) + j % 8 = omega arith in
    ap (λ t. digit t (le_value bs)) place ∙ digit-le_value bs (j / 8) (j % 8) (omega arith)
