-- ===== src/BitStream/Int/Rounds.antt =====
-- The loop of `SerializeInt` on the reader's side, and how many rounds the loops take.
use native.Mathlib.Nat.{one-le-pow, pow-le-pow_right, mod-lt, div-add-mod, mul-le-mul_left}
use rudp_network_engine.Prelude.{
  ℕ, zero, suc, ◌+◌, ◌*◌, ◌/◌, ◌%◌, ◌^◌, ◌≤◌, ◌<◌, ◌≡◌, refl, ap, ap₂, ◌∙◌, Bool, true, false, List,
  bit_or, leb, ◌==◌, if◌then◌else◌, arith, dec_lt, Bool-cases, inl, inr,
}
use rudp_network_engine.Prelude.Digit.{digit, digit-le}
use rudp_network_engine.BitStream.Copy.{bit}
use rudp_network_engine.BitStream.Reader.{test_bit}
use rudp_network_engine.BitStream.Reader.Taken.{test_bit_iff}
use rudp_network_engine.BitStream.Int.{goes_on, read_int}
use rudp_network_engine.BitStream.Int.Bits.{mod-one_more, mask_next, bit_or-above}
use rudp_network_engine.BitStream.Int.Loops.{int_end, int_end-ge, goes_on-below}

read_value :
    (b : Bool) (k v new mask : ℕ)
    → b ≡ (if digit k v == 1 then true else false)
    → k < 32
    → new ≡ v % 2 ^ k
    → mask ≡ 2 ^ k % 2 ^ 32
    → (if b then bit_or new mask else new) ≡ v % 2 ^ suc k
read_value true k v new mask e lt en em =
    let power = pow-le-pow_right {n = 2} (omega arith) {i = k} {j = 31} (omega arith) in
    let plain : 2 ^ k % 2 ^ 32 ≡ 2 ^ k = omega (arith, power) in
    let one : digit k v ≡ 1 = ground (arith, e) in
    let more = mod-one_more k v ∙ ap (λ d. v % 2 ^ k + d * 2 ^ k) one in
    ap₂ bit_or en (em ∙ plain)
    ∙ bit_or-above k (v % 2 ^ k) (mod-lt v (one-le-pow k 2 (omega arith)))
    ∙ omega (arith, more)
read_value false k v new mask e lt en em =
    let none : digit k v ≡ 0 = ground (arith, e, digit-le k v) in
    let more = mod-one_more k v ∙ ap (λ d. v % 2 ^ k + d * 2 ^ k) none in omega (arith, more, en)

-- The reader, on bits that are the digits of `v`: the value of the rounds, and no overflow.
pub read_int-Read :
    (rounds k bound v at₀ end mask new at : ℕ) (m : List ℕ)
    → k ≤ 32
    → mask ≡ 2 ^ k % 2 ^ 32
    → new ≡ v % 2 ^ k
    → at ≡ at₀ + k
    → at₀ + int_end rounds k bound v ≤ end
    → ((i : ℕ) → i < int_end rounds k bound v → bit m (at₀ + i) ≡ digit i v)
    → read_int rounds bound end m mask new at
      ≡ (v % 2 ^ int_end rounds k bound v, at₀ + int_end rounds k bound v, false)
unfolding read_int
read_int-Read zero k bound v at₀ end mask new at m le em en ea room same_bits =
    ap₂ (λ a b. (a, b, false)) en ea
read_int-Read (suc rounds) k bound v at₀ end mask new at m le em en ea room same_bits =
    elim (Bool-cases (goes_on (v % 2 ^ k) (2 ^ k % 2 ^ 32) bound)) [
      | inl t ↦
          let same : goes_on new mask bound ≡ true = ap₂ (λ a b. goes_on a b bound) en em ∙ t in
          let below = goes_on-below k bound v le t in
          let longer : int_end (suc rounds) k bound v ≡ int_end rounds (suc k) bound v =
            rw (t) refl in
          let more = int_end-ge rounds (suc k) bound v in
          let inside : leb end at ≡ false = ground (arith, room, longer, more, ea) in
          let is_set : test_bit m at ≡ (if digit k v == 1 then true else false) =
            test_bit_iff m at
            ∙ ap (λ b. if b == 1 then true else false)
                (ap (bit m) ea ∙ same_bits k (omega (arith, longer, more))) in
          let rest =
            read_int-Read rounds (suc k) bound v at₀ end (mask * 2 % 2 ^ 32)
              (if test_bit m at then bit_or new mask else new) (at + 1) m (omega arith)
              (ap (λ t. t * 2 % 2 ^ 32) em ∙ mask_next k)
              (read_value (test_bit m at) k v new mask is_set (below.0) en em) (omega (arith, ea))
              (omega (arith, room, longer)) (λ i lt. same_bits i (omega (arith, longer))) in
          rw (t, same) (rw (inside) rest)
      | inr t ↦
          let same : goes_on new mask bound ≡ false = ap₂ (λ a b. goes_on a b bound) en em ∙ t in
          rw (t, same) (ap₂ (λ a b. (a, b, false)) en ea)
    ]

mod-reaches : (k v : ℕ) → v < v % 2 ^ k + 2 ^ k → v % 2 ^ k ≡ v
mod-reaches k v h = elim (dec_lt 0 (v / 2 ^ k)) [
  | yes more ↦ absurd (omega (arith, div-add-mod v (2 ^ k), mul-le-mul_left (2 ^ k) more))
  | no none ↦
      let zero_times : 2 ^ k * (v / 2 ^ k) ≡ 0 =
        let q : v / 2 ^ k ≡ 0 = omega arith in ap (λ t. 2 ^ k * t) q ∙ omega arith in
      omega (arith, div-add-mod v (2 ^ k), zero_times)
]

stopped :
    (k bound v : ℕ)
    → k ≤ 32
    → v < bound
    → bound < 2 ^ 32
    → goes_on (v % 2 ^ k) (2 ^ k % 2 ^ 32) bound ≡ false
    → v % 2 ^ k ≡ v
stopped k bound v le lt small t = elim (dec_lt k 32) [
  | yes k32 ↦
      let power = pow-le-pow_right {n = 2} (omega arith) {i = k} {j = 31} (omega arith) in
      let part : v % 2 ^ k < 2 ^ k = mod-lt v (one-le-pow k 2 (omega arith)) in
      let reach : v < v % 2 ^ k + 2 ^ k = ground (arith, t, power, part, one-le-pow k 2) in
      mod-reaches k v reach
  | no k32 ↦ let e : k ≡ 32 = omega arith in ap (λ t. v % 2 ^ t) e ∙ omega arith
]

-- The rounds are as many as the value needs: no digit of a number below the bound is left out.
pub int_end-whole :
    (rounds k bound v : ℕ)
    → 32 < k + rounds
    → k ≤ 32
    → v < bound
    → bound < 2 ^ 32
    → v % 2 ^ int_end rounds k bound v ≡ v
int_end-whole zero k bound v fuel le lt small = absurd (omega arith)
int_end-whole (suc rounds) k bound v fuel le lt small =
    elim (Bool-cases (goes_on (v % 2 ^ k) (2 ^ k % 2 ^ 32) bound)) [
      | inl t ↦
          let below = goes_on-below k bound v le t in
          rw (t)
            (int_end-whole rounds (suc k) bound v (omega arith) (omega (arith, below)) lt small)
      | inr t ↦ rw (t) (stopped k bound v le lt small t)
    ]

pub int_end-covered :
    (rounds k bound v n : ℕ)
    → ((i : ℕ) → i < 32 → 2 ^ i < bound → i < n)
    → k ≤ 32
    → k ≤ n
    → int_end rounds k bound v ≤ n
int_end-covered zero k bound v n cover le kn = kn
int_end-covered (suc rounds) k bound v n cover le kn =
    elim (Bool-cases (goes_on (v % 2 ^ k) (2 ^ k % 2 ^ 32) bound)) [
      | inl t ↦
          let below = goes_on-below k bound v le t in
          rw (t) (
            int_end-covered rounds (suc k) bound v n cover (omega arith)
              (cover k (below.0) (below.1)))
      | inr t ↦ rw (t) kn
    ]
