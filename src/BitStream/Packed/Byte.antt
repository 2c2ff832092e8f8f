-- ===== src/BitStream/Packed/Byte.antt =====
-- One byte of a packed number, at any bit of the buffer.
use Prim.Native.Nat.{bit_xor}
use rudp_network_engine.Prelude.{
  ℕ, zero, suc, ◌+◌, ◌-◌, ◌*◌, ◌/◌, ◌%◌, ◌^◌, ◌≤◌, ◌<◌, ◌≡◌, ◌≢◌, refl, ap, ap₂, ◌∙◌, subst, ◌⊎◌,
  min, max, List, length, bit_and, bit_or, ltb, leb, ◌==◌, if◌then◌else◌, arith, ℕ_discrete, dec_lt,
  Bool-cases, inl, inr,
}
use rudp_network_engine.Prelude.Digit.{
  digit, digit-le, digit-small, digit-bit_and, digit-bit_or, digit-shr, digit-shl, digit-ones,
  digit-complement,
}
use rudp_network_engine.BitStream.Copy.{byte, store, bit, shl32}
use rudp_network_engine.BitStream.Copy.Masks.{
  bit-at, bit-store, length-store, digit-byte, digit-shl32,
}
use rudp_network_engine.BitStream.Copy.Short.{Landed, over-Landed, within-Landed}
use rudp_network_engine.BitStream.Table.Bytes.{low_bits}
use rudp_network_engine.BitStream.Packed.{low_mask, write_byte, read_byte}

digit-low_mask : (i n : ℕ) → i < 8 → digit i (low_mask n) ≡ (if ltb i n then 1 else 0)
digit-low_mask i n h = digit-byte i (2 ^ n - 1) h ∙ digit-ones i n

high_mask : (n : ℕ) → n < 8 → bit_xor 0xFF (low_mask n) ≡ 2 ^ 8 - 1 - low_mask n
high_mask zero h = refl
high_mask (suc zero) h = refl
high_mask (suc (suc zero)) h = refl
high_mask (suc (suc (suc zero))) h = refl
high_mask (suc (suc (suc (suc zero)))) h = refl
high_mask (suc (suc (suc (suc (suc zero))))) h = refl
high_mask (suc (suc (suc (suc (suc (suc zero)))))) h = refl
high_mask (suc (suc (suc (suc (suc (suc (suc zero))))))) h = refl
high_mask (suc (suc (suc (suc (suc (suc (suc (suc n)))))))) h = absurd (omega arith)

digit-high_mask :
    (i n : ℕ) → i < 8 → n < 8 → digit i (bit_xor 0xFF (low_mask n)) ≡ (if ltb i n then 0 else 1)
digit-high_mask i n h k =
    ap (digit i) (high_mask n k)
    ∙ digit-complement i 8 (low_mask n) (omega arith)
    ∙ ground (arith, digit-low_mask i n h)

-- The part of the byte that goes to the first byte of the buffer, and the rest.
first_part :
    (m : List ℕ) (d used word j : ℕ)
    → d < length m
    → used < 8
    → bit (store m d (bit_or (bit_and (byte m d) (low_mask used)) (shl32 word used % 2 ^ 8))) j ≡ (
        if j / 8 == d
        then (if ltb (j % 8) used then bit m j else digit (j % 8 - used) word)
        else bit m j)
first_part m d used word j room small =
    let i = j % 8 in
    let b = byte m d in
    let x = shl32 word used % 2 ^ 8 in
    let stored = bit-store m d (bit_or (bit_and b (low_mask used)) x) j room in
    elim (ℕ_discrete (j / 8) d) [
      | yes e ↦
          let old : bit m j ≡ digit i b = bit-at m j d i (omega arith) (omega arith) in
          ground (
            arith,
            stored,
            e,
            old,
            digit-bit_or i (bit_and b (low_mask used)) x,
            digit-bit_and i b (low_mask used),
            digit-low_mask i used (omega arith),
            digit-le i b,
            digit-byte i (shl32 word used) (omega arith),
            digit-shl32 i word used (omega arith),
          )
      | no e ↦ ground (arith, stored, e)
    ]

second_part :
    (m : List ℕ) (d used word j : ℕ)
    → d < length m
    → used < 8
    → word < 2 ^ 8
    → bit
        (store m d (
          bit_or
            (bit_and (byte m d) (bit_xor 0xFF (low_mask used)))
            (word / 2 ^ (8 - used) % 2 ^ 8)))
        j
      ≡ (if j / 8 == d
          then (if ltb (j % 8) used then digit (j % 8 + (8 - used)) word else bit m j)
          else bit m j)
second_part m d used word j room small fits =
    let i = j % 8 in
    let b = byte m d in
    let mask = bit_xor 0xFF (low_mask used) in
    let x = word / 2 ^ (8 - used) % 2 ^ 8 in
    let stored = bit-store m d (bit_or (bit_and b mask) x) j room in
    elim (ℕ_discrete (j / 8) d) [
      | yes e ↦
          let old : bit m j ≡ digit i b = bit-at m j d i (omega arith) (omega arith) in
          let none : used ≤ i → digit (i + (8 - used)) word ≡ 0 =
            λ h. digit-small (i + (8 - used)) 8 word fits (omega arith) in
          let high : digit i x ≡ digit (i + (8 - used)) word =
            digit-byte i (word / 2 ^ (8 - used)) (omega arith) ∙ digit-shr i (8 - used) word in
          ground (
            arith,
            stored,
            e,
            old,
            none,
            high,
            digit-bit_or i (bit_and b mask) x,
            digit-bit_and i b mask,
            digit-high_mask i used (omega arith) small,
            digit-le i b,
            digit-le (i + (8 - used)) word,
          )
      | no e ↦ ground (arith, stored, e)
    ]

pub length-write_byte : (m : List ℕ) (at word : ℕ) → length (write_byte m at word) ≡ length m
unfolding write_byte
length-write_byte m at word = elim (Bool-cases (bit_and at 7 == 0)) [
  | inl t ↦ rw (t) (length-store m (at / 2 ^ 3) _)
  | inr t ↦ rw (t) (length-store _ (at / 2 ^ 3 + 1) _ ∙ length-store m (at / 2 ^ 3) _)
]

same_tests :
    (at j x y : ℕ)
    → at % 8 ≢ 0
    → (if j / 8 == at / 8 + 1 then (if ltb (j % 8) (at % 8) then x else y) else y)
      ≡ (if j / 8 == (at + 8 - 1) / 8 then (if leb (j % 8) ((at + 8 - 1) % 8) then x else y) else y)
same_tests at j x y h = ground (arith, h)

-- Exactly the eight bits from `at` on become those of the byte.
pub write_byte-Landed :
    (m : List ℕ) (at word j : ℕ)
    → at + 8 ≤ 8 * length m
    → word < 2 ^ 8
    → Landed m at 8 word j (bit (write_byte m at word) j)
unfolding write_byte
write_byte-Landed m at word j room fits =
    let low = low_bits at in
    let used = bit_and at 7 in
    let small : used < 8 = omega (arith, low) in
    let d = at / 8 in
    let v = bit_or (bit_and (byte m d) (low_mask used)) (shl32 word used % 2 ^ 8) in
    let head = first_part m d used word j (omega arith) small in
    let head' =
      subst
        (λ u. bit (store m d v) j ≡ (
          if j / 8 == d
          then (if ltb (j % 8) u then bit m j else digit (j % 8 - u) word)
          else bit m j))
        low head in
    elim (Bool-cases (used == 0)) [
      | inl t ↦
          let zero_used : at % 8 ≡ 0 = ground (arith, t, low) in
          rw (t) (
            within-Landed m at 8 word j (bit (store m d v) j) (omega arith) (omega arith)
              (omega arith) (head' ∙ ground (arith, zero_used)))
      | inr t ↦
          let some_used : at % 8 ≢ 0 = ground (arith, t, low) in
          let rest =
            second_part (store m d v) (d + 1) used word j
              (omega (arith, some_used, length-store m d v)) small fits in
          let rest' =
            subst
              (λ u.
                bit
                  (store (store m d v) (d + 1) (
                    bit_or (bit_and (byte (store m d v) (d + 1)) (bit_xor 0xFF (low_mask used)))
                      (word / 2 ^ (8 - used) % 2 ^ 8)))
                  j
                ≡ (if j / 8 == d + 1
                    then (if ltb (j % 8) u
                        then digit (j % 8 + (8 - u)) word
                        else bit (store m d v) j)
                    else bit (store m d v) j))
              low rest in
          rw (t) (
            over-Landed m at 8 word j _ (bit (store m d v) j) (omega arith) (omega arith)
              (omega (arith, some_used)) head'
              (rest'
                ∙ same_tests at j (digit (j % 8 + (8 - at % 8)) word) (bit (store m d v) j)
                    some_used))
    ]

unfoldable assemble_byte : List ℕ → ℕ → ℕ → ℕ → ℕ
assemble_byte m d u next =
    bit_or (bit_and (byte m d / 2 ^ u) (low_mask (8 - u)))
      (bit_and (byte m (d + next)) (low_mask u) * 2 ^ bit_and (8 - u) 7)
    % 2 ^ 8

choose :
    (a c r u t s : ℕ)
    → a ≤ 1
    → c ≤ 1
    → u < 8
    → t < 8
    → s ≡ (8 - u) % 8
    → (t + u < 8 → r ≡ a)
    → (8 ≤ t + u → r ≡ c)
    → max
        (min a (if ltb t (8 - u) then 1 else 0))
        (if ltb t s then 0 else min c (if ltb (t - s) u then 1 else 0))
      ≡ r
choose a c r u t s ha hc hu ht hs near far = elim (dec_lt (t + u) 8) [
  | yes k ↦
      let e = near k in
      elim (ℕ_discrete u 0) [
        | yes z ↦ ground (arith, z, e, hs)
        | no z ↦ let e' : s ≡ 8 - u = omega arith in ground (arith, e, e', z)
      ]
  | no k ↦ let e = far (omega arith) in let e' : s ≡ 8 - u = omega arith in ground (arith, e, e', k)
]

digit-assemble :
    (m : List ℕ) (d u next t : ℕ)
    → u < 8
    → t < 8
    → (u ≡ 0) ⊎ (next ≡ 1)
    → digit t (assemble_byte m d u next) ≡ bit m (8 * d + u + t)
unfolding assemble_byte
digit-assemble m d u next t small lt split =
    let b₀ = byte m d in
    let b₁ = byte m (d + next) in
    let x = bit_and (b₀ / 2 ^ u) (low_mask (8 - u)) in
    let y = bit_and b₁ (low_mask u) in
    let s = bit_and (8 - u) 7 in
    let low : s ≡ (8 - u) % 8 = low_bits (8 - u) in
    let whole = digit-byte t (bit_or x (y * 2 ^ s)) lt ∙ digit-bit_or t x (y * 2 ^ s) in
    let first : digit t x ≡ min (digit (t + u) b₀) (if ltb t (8 - u) then 1 else 0) =
      digit-bit_and t (b₀ / 2 ^ u) (low_mask (8 - u))
      ∙ ap₂ min (digit-shr t u b₀) (digit-low_mask t (8 - u) lt) in
    let second : digit t (y * 2 ^ s)
        ≡ (if ltb t s then 0 else min (digit (t - s) b₁) (if ltb (t - s) u then 1 else 0)) =
      digit-shl t s y
      ∙ ap (λ q. if ltb t s then 0 else q)
          (digit-bit_and (t - s) b₁ (low_mask u)
            ∙ ap (min (digit (t - s) b₁)) (digit-low_mask (t - s) u (omega arith))) in
    whole
    ∙ ap₂ max first second
    ∙ choose (digit (t + u) b₀) (digit (t - s) b₁) (bit m (8 * d + u + t)) u t s
        (digit-le (t + u) b₀) (digit-le (t - s) b₁) small lt low
        (λ k. bit-at m (8 * d + u + t) d (t + u) (omega arith) k)
        (λ k.
          bit-at m (8 * d + u + t) (d + next) (t - s) (omega (arith, low, split))
            (omega (arith, low)))

-- The byte that is read has the eight bits from `at` on.
pub digit-read_byte : (m : List ℕ) (at t : ℕ) → t < 8 → digit t (read_byte m at) ≡ bit m (at + t)
unfolding read_byte assemble_byte
digit-read_byte m at t lt =
    let low = low_bits at in
    let place : 8 * (at / 8) + bit_and at 7 + t ≡ at + t = omega (arith, low) in
    digit-assemble m (at / 8) (bit_and at 7) (if bit_and at 7 == 0 then 0 else 1) t
      (omega (arith, low)) lt
      (elim (Bool-cases (bit_and at 7 == 0)) [
        | inl e ↦ inl (ground (arith, e))
        | inr e ↦ inr (ground (arith, e))
      ])
    ∙ ap (bit m) place

pub read_byte-small : (m : List ℕ) (at : ℕ) → read_byte m at < 2 ^ 8
unfolding read_byte
read_byte-small m at = omega arith
