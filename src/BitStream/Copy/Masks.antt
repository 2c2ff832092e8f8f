-- ===== src/BitStream/Copy/Masks.antt =====
-- The bits of a buffer after a write, and the bits that the masks of the copy keep.
use rudp_network_engine.Prelude.{
  ℕ, ◌+◌, ◌-◌, ◌*◌, ◌/◌, ◌%◌, ◌^◌, ◌<◌, ◌≡◌, refl, sym, ap, ◌∙◌, List, [], ◌∷◌, zero, suc, length,
  length-set, get_or, set, bit_and, bit_or, ltb, leb, ◌==◌, if◌then◌else◌, arith, ℕ_discrete,
}
use rudp_network_engine.Prelude.Digit.{
  digit, digit-le, digit-bit_and, digit-bit_or, digit-mod, digit-shl, digit-ones, digit-complement,
}
use rudp_network_engine.BitStream.Copy.{byte, store, bit, not32, shl32}

pub get_or-set {ℓ} :
    {A : Type ℓ} (m : List A) (i k : ℕ) (v d : A)
    → i < length m
    → get_or (set m i v) k d ≡ (if k == i then v else get_or m k d)
get_or-set [] i k v d h = absurd (omega arith)
get_or-set (x ∷ m) zero zero v d h = refl
get_or-set (x ∷ m) zero (suc k) v d h = ground arith
get_or-set (x ∷ m) (suc i) zero v d h = ground arith
get_or-set (x ∷ m) (suc i) (suc k) v d h = get_or-set m i k v d (omega arith) ∙ ground arith

pub bit-at : (m : List ℕ) (j k i : ℕ) → j ≡ 8 * k + i → i < 8 → bit m j ≡ digit i (byte m k)
bit-at m j k i e h =
    let low : j % 8 ≡ i = omega arith in
    let high : j / 8 ≡ k = omega arith in
    ap (λ t. digit t (byte m (j / 8))) low ∙ ap (λ t. digit i (byte m t)) high

pub digit-byte : (i v : ℕ) → i < 8 → digit i (v % 2 ^ 8) ≡ digit i v
digit-byte i v h = digit-mod i 8 v ∙ ground arith

pub length-store : (m : List ℕ) (k v : ℕ) → length (store m k v) ≡ length m
length-store m k v = length-set m k (v % 2 ^ 8)

pub bit-store :
    (m : List ℕ) (k v j : ℕ)
    → k < length m
    → bit (store m k v) j ≡ (if j / 8 == k then digit (j % 8) v else bit m j)
bit-store m k v j h =
    ap (λ t. digit (j % 8) (t % 2 ^ 8)) (get_or-set m k (j / 8) (v % 2 ^ 8) 0 h)
    ∙ elim (ℕ_discrete (j / 8) k) [
      | yes e ↦ ground (arith, digit-byte (j % 8) v (omega arith), e)
      | no n ↦ ground (arith, n)
    ]

pub digit-shl32 :
    (i x s : ℕ) → i < 32 → digit i (shl32 x s) ≡ (if ltb i s then 0 else digit (i - s) x)
digit-shl32 i x s h = digit-mod i 32 (x * 2 ^ s) ∙ ground (arith, digit-shl i s x)

pub digit-not32 : (i x : ℕ) → i < 32 → x < 2 ^ 32 → digit i (not32 x) ≡ 1 - digit i x
digit-not32 i x h lt = digit-complement i 32 x lt ∙ ground arith

-- `0xFF << s` in a byte, and `0xFE << s`.
pub digit-from : (i s : ℕ) → i < 8 → digit i (shl32 255 s) ≡ (if ltb i s then 0 else 1)
digit-from i s h = ground (arith, digit-shl32 i 255 s (omega arith), digit-ones (i - s) 8)

digit-254 : (i : ℕ) → i < 8 → digit i 254 ≡ (if i == 0 then 0 else 1)
digit-254 zero h = refl
digit-254 (suc i) h = digit-ones i 7 ∙ ground arith

pub digit-after : (i s : ℕ) → i < 8 → digit i (shl32 254 s) ≡ (if leb i s then 0 else 1)
digit-after i s h =
    ground (arith, digit-shl32 i 254 s (omega arith), digit-254 (i - s) (omega arith))

-- A write of a byte whose bits are those of `v` where `mask` has a one, the others kept.
replaces :
    (m : List ℕ) (k mask v w j : ℕ)
    → k < length m
    → ((i : ℕ) → i < 8 → digit i w ≡ (if digit i mask == 1 then digit i v else digit i (byte m k)))
    → bit (store m k w) j ≡ (
        if j / 8 == k
        then (if digit (j % 8) mask == 1 then digit (j % 8) v else bit m j)
        else bit m j)
replaces m k mask v w j h same = elim (ℕ_discrete (j / 8) k) [
  | yes e ↦
      ground (
        arith,
        bit-store m k w j h,
        same (j % 8) (omega arith),
        ap (λ t. digit (j % 8) (byte m t)) e,
      )
  | no n ↦ ground (arith, n, bit-store m k w j h)
]

module _ (m : List ℕ) (k mask v j : ℕ) (h : k < length m) (lt : mask < 2 ^ 32) where
  pub replaces_masked :
      bit (store m k (bit_or (bit_and (byte m k) (not32 mask)) (bit_and v mask))) j ≡ (
        if j / 8 == k
        then (if digit (j % 8) mask == 1 then digit (j % 8) v else bit m j)
        else bit m j)
  replaces_masked =
      let d = byte m k in
      replaces m k mask v (bit_or (bit_and d (not32 mask)) (bit_and v mask)) j h (λ i k. ground (
        arith,
        digit-bit_or i (bit_and d (not32 mask)) (bit_and v mask),
        digit-bit_and i d (not32 mask),
        digit-bit_and i v mask,
        digit-not32 i mask (omega arith) lt,
        digit-le i mask,
        digit-le i v,
        digit-le i d,
      ))

  pub replaces_first :
      bit (store m k (bit_or (bit_and v mask) (bit_and (byte m k) (not32 mask)))) j ≡ (
        if j / 8 == k
        then (if digit (j % 8) mask == 1 then digit (j % 8) v else bit m j)
        else bit m j)
  replaces_first =
      let d = byte m k in
      replaces m k mask v (bit_or (bit_and v mask) (bit_and d (not32 mask))) j h (λ i k. ground (
        arith,
        digit-bit_or i (bit_and v mask) (bit_and d (not32 mask)),
        digit-bit_and i d (not32 mask),
        digit-bit_and i v mask,
        digit-not32 i mask (omega arith) lt,
        digit-le i mask,
        digit-le i v,
        digit-le i d,
      ))

module _ (m : List ℕ) (k mask v j : ℕ) (h : k < length m) (lt : mask < 2 ^ 32) where
  pub replaces_rest :
      bit (store m k (bit_or (bit_and (byte m k) mask) (bit_and v (not32 mask)))) j ≡ (
        if j / 8 == k
        then (if digit (j % 8) mask == 1 then bit m j else digit (j % 8) v)
        else bit m j)
  replaces_rest =
      let back : not32 (not32 mask) ≡ mask = omega arith in
      let i = j % 8 in
      ap (λ t. bit (store m k (bit_or (bit_and (byte m k) t) (bit_and v (not32 mask)))) j)
        (sym back)
      ∙ replaces_masked m k (not32 mask) v j h (omega arith)
      ∙ ground (arith, digit-not32 i mask (omega arith) lt, digit-le i mask)
