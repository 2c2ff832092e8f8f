-- ===== src/BitStream/Int/Loops.antt =====
-- The rounds of the loops of `SerializeInt`, and the writer's loop.
use native.Mathlib.Nat.{one-le-pow, pow-le-pow_right, mod-lt}
use rudp_network_engine.Prelude.{
  ℕ, zero, suc, ◌+◌, ◌-◌, ◌*◌, ◌%◌, ◌^◌, ◌≤◌, ◌<◌, ◌≡◌, refl, ap, ap₂, ◌∙◌, Bool, true, false, not,
  List, bit_and, length, ltb, ◌==◌, if◌then◌else◌, arith, dec_lt, Bool-cases, inl, inr,
}
use rudp_network_engine.Prelude.Digit.{digit, digit-le}
use rudp_network_engine.BitStream.Copy.{bit}
use rudp_network_engine.BitStream.Int.{goes_on, write_int, add_bit}
use rudp_network_engine.BitStream.Int.Bits.{
  length-add_bit, bit-add_bit, mod-one_more, mask_test, mask_next,
}

-- The rounds from the digit `k` on go to this one.
abbrev pub int_end : ℕ → ℕ → ℕ → ℕ → ℕ
int_end zero k bound v = k
int_end (suc rounds) k bound v =
    let rest = int_end rounds (suc k) bound v in
    if goes_on (v % 2 ^ k) (2 ^ k % 2 ^ 32) bound then rest else k

pub int_end-ge : (rounds k bound v : ℕ) → k ≤ int_end rounds k bound v
int_end-ge zero k bound v = omega arith
int_end-ge (suc rounds) k bound v = elim (Bool-cases (goes_on (v % 2 ^ k) (2 ^ k % 2 ^ 32) bound)) [
  | inl t ↦ rw (t) (omega (arith, int_end-ge rounds (suc k) bound v))
  | inr t ↦ rw (t) (omega arith)
]

-- The loop goes on only below 32 digits, and for a power of two below the bound.
pub goes_on-below :
    (k bound v : ℕ)
    → k ≤ 32
    → goes_on (v % 2 ^ k) (2 ^ k % 2 ^ 32) bound ≡ true
    → (k < 32) × (2 ^ k < bound)
goes_on-below k bound v le t = elim (dec_lt k 32) [
  | yes lt ↦
      let power = pow-le-pow_right {n = 2} (omega arith) {i = k} {j = 31} (omega arith) in
      let small : v % 2 ^ k < 2 ^ k = mod-lt v (one-le-pow k 2 (omega arith)) in
      ground (arith, t, power, lt, small)
  | no k32 ↦
      let e : k ≡ 32 = omega arith in
      let wrapped : 2 ^ k % 2 ^ 32 ≡ 0 = ap (λ t. 2 ^ t % 2 ^ 32) e in ground (arith, t, wrapped)
]

abbrev pub Written : List ℕ → ℕ → ℕ → ℕ → ℕ → List ℕ → Type 0
Written m at₀ k e v m' =
    (length m' ≡ length m)
    × ((j : ℕ)
        → bit m' j ≡ (
            if ltb j (at₀ + k)
            then bit m j
            else (if ltb j (at₀ + e) then digit (j - at₀) v else 0)))

digit_cases : (k v : ℕ) → digit k v ≡ (if digit k v == 1 then 1 else 0)
digit_cases k v = ground (arith, digit-le k v)

-- One round of the writer.
round_bits :
    (b : Bool) (k v at : ℕ) (m : List ℕ)
    → b ≡ (if digit k v == 1 then true else false)
    → at < 8 * length m
    → bit m at ≡ 0
    → (length (if b then add_bit m at else m) ≡ length m)
      × ((j : ℕ) → bit (if b then add_bit m at else m) j ≡ (if j == at then digit k v else bit m j))
round_bits true k v at m e room clean =
    let one : digit k v ≡ 1 = ground (arith, e) in
    (length-add_bit m at, λ j. bit-add_bit m at j room clean ∙ ground (arith, one))
round_bits false k v at m e room clean =
    let none : digit k v ≡ 0 = ground (arith, e, digit-le k v) in
    let here : (j : ℕ) → j ≡ at → bit m j ≡ 0 = λ j q. ap (bit m) q ∙ clean in
    (refl, λ j. ground (arith, none, here j))

round_value :
    (b : Bool) (k v new mask : ℕ)
    → b ≡ (if digit k v == 1 then true else false)
    → k < 32
    → new ≡ v % 2 ^ k
    → mask ≡ 2 ^ k % 2 ^ 32
    → (if b then (new + mask) % 2 ^ 32 else new) ≡ v % 2 ^ suc k
round_value b k v new mask e lt en em =
    let power = pow-le-pow_right {n = 2} (omega arith) {i = k} {j = 31} (omega arith) in
    let small : v % 2 ^ k < 2 ^ k = mod-lt v (one-le-pow k 2 (omega arith)) in
    elim (Bool-cases b) [
      | inl t ↦
          let one : digit k v ≡ 1 = ground (arith, e, t) in
          let more = mod-one_more k v ∙ ap (λ d. v % 2 ^ k + d * 2 ^ k) one in
          rw (t) (omega (arith, more, power, small, en, em))
      | inr t ↦
          let none : digit k v ≡ 0 = ground (arith, e, t, digit-le k v) in
          let more = mod-one_more k v ∙ ap (λ d. v % 2 ^ k + d * 2 ^ k) none in
          rw (t) (omega (arith, more, en))
    ]

one_round :
    (m m₁ : List ℕ) (at₀ k v j e at : ℕ)
    → at ≡ at₀ + k
    → suc k ≤ e
    → bit m₁ j ≡ (if j == at then digit k v else bit m j)
    → (j ≡ at → digit k v ≡ digit (j - at₀) v)
    → (if ltb j (at₀ + suc k) then bit m₁ j else (if ltb j (at₀ + e) then digit (j - at₀) v else 0))
      ≡ (if ltb j (at₀ + k) then bit m j else (if ltb j (at₀ + e) then digit (j - at₀) v else 0))
one_round m m₁ at₀ k v j e at ea le stored here = ground (arith, ea, le, stored, here)

-- The writer: the digits of `v` from `k` on, behind bits that stay and before bits that are 0.
pub write_int-Written :
    (rounds k bound v at₀ mask new at : ℕ) (m : List ℕ)
    → k ≤ 32
    → mask ≡ 2 ^ k % 2 ^ 32
    → new ≡ v % 2 ^ k
    → at ≡ at₀ + k
    → at₀ + int_end rounds k bound v ≤ 8 * length m
    → ((j : ℕ) → at ≤ j → bit m j ≡ 0)
    → (((write_int rounds v bound m mask new at).1) ≡ at₀ + int_end rounds k bound v)
      × Written m at₀ k (int_end rounds k bound v) v ((write_int rounds v bound m mask new at).0)
unfolding write_int
write_int-Written zero k bound v at₀ mask new at m le em en ea room clean =
    (ea, (refl, λ j. ground (arith, ea, λ (h : at₀ + k ≤ j). clean j (omega (arith, ea)))))
write_int-Written (suc rounds) k bound v at₀ mask new at m le em en ea room clean =
    elim (Bool-cases (goes_on (v % 2 ^ k) (2 ^ k % 2 ^ 32) bound)) [
      | inl t ↦
          let same : goes_on new mask bound ≡ true = ap₂ (λ a b. goes_on a b bound) en em ∙ t in
          let below = goes_on-below k bound v le t in
          let longer : int_end (suc rounds) k bound v ≡ int_end rounds (suc k) bound v =
            rw (t) refl in
          let bound_room : at₀ + int_end rounds (suc k) bound v ≤ 8 * length m =
            omega (arith, room, longer) in
          let b = not (bit_and v mask == 0) in
          let is_set : b ≡ (if digit k v == 1 then true else false) =
            ap (λ t. not (bit_and v t == 0)) em ∙ mask_test k v (below.0) in
          let more = int_end-ge rounds (suc k) bound v in
          let bits =
            round_bits b k v at m is_set (omega (arith, ea, bound_room, more))
              (clean at (omega arith)) in
          let rest =
            write_int-Written rounds (suc k) bound v at₀ (mask * 2 % 2 ^ 32)
              (if b then (new + mask) % 2 ^ 32 else new) (at + 1) (if b then add_bit m at else m)
              (omega arith) (ap (λ t. t * 2 % 2 ^ 32) em ∙ mask_next k)
              (round_value b k v new mask is_set (below.0) en em) (omega (arith, ea))
              (omega (arith, bound_room, bits.0))
              (λ j h. bits.1 j ∙ ground (arith, λ (h : at ≤ j). clean j h)) in
          let digit_here : (j : ℕ) → j ≡ at → digit k v ≡ digit (j - at₀) v =
            λ j q. let place : k ≡ j - at₀ = omega (arith, q, ea) in ap (λ i. digit i v) place in
          rw (t, same)
            (
              rest.0,
              (
                rest.1.0 ∙ bits.0,
                λ j.
                    rest.1.1 j
                    ∙ one_round m (if b then add_bit m at else m) at₀ k v j
                        (int_end rounds (suc k) bound v) at ea more (bits.1 j) (digit_here j),
              ),
            )
      | inr t ↦
          let same : goes_on new mask bound ≡ false = ap₂ (λ a b. goes_on a b bound) en em ∙ t in
          rw (t, same)
            (ea, (refl, λ j. ground (arith, ea, λ (h : at₀ + k ≤ j). clean j (omega (arith, ea)))))
    ]
