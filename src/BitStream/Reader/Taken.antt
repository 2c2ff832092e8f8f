-- ===== src/BitStream/Reader/Taken.antt =====
-- What the calls of `BitReader` take, and what they give where the bits run out.
use native.Mathlib.Nat.{one-le-pow}
use rudp_network_engine.Prelude.{
  ℕ, zero, suc, ◌+◌, ◌-◌, ◌*◌, ◌/◌, ◌%◌, ◌^◌, ◌≤◌, ◌<◌, ◌≡◌, refl, sym, ap, ap₂, ◌∙◌, Bool, true,
  false, ◌||◌, ◌⊎◌, inl, inr, Bool-cases, List, [], ◌∷◌, ◌++◌, length, length-append, length-drop,
  drop, replicate, length-replicate, bit_and, ltb, ◌==◌, if◌then◌else◌, arith, ℕ_discrete,
}
use rudp_network_engine.Prelude.Digit.{digit, digit-le, digit-zero, digit-injective}
use rudp_network_engine.BitStream.Copy.{byte, store, bit}
use rudp_network_engine.BitStream.Copy.Masks.{bit-store, length-store, bit-at}
use rudp_network_engine.BitStream.Copy.Copied.{app_bits_cpy-Moved}
use rudp_network_engine.BitStream.Table.{le_bytes, le_value}
use rudp_network_engine.BitStream.Table.Bytes.{
  low_bits, masked-digit, bit-le_value, length-le_bytes,
}
use rudp_network_engine.BitStream.Reader.{
  Reader, set_error, zero_bytes, test_bit, one_bit, many_bits, serialize_bits, serialize, get_word,
}

-- The next `n` bits of the reader, as they arrive in the memory `dest`.
abbrev pub Taken : Reader → ℕ → List ℕ → List ℕ → Type 0
Taken r n old dest =
    (length dest ≡ length old) × ((i : ℕ) → i < n → bit dest i ≡ bit (r.buffer) (r.pos + i))

pub test_bit_iff : (m : List ℕ) (i : ℕ) → test_bit m i ≡ (if bit m i == 1 then true else false)
unfolding test_bit
test_bit_iff m i =
    let k = i % 8 in
    let b = byte m (i / 8) in
    let low = low_bits i in
    let whole : bit_and b (2 ^ bit_and i 7 % 2 ^ 8) ≡ digit k b * 2 ^ k =
      ap (λ t. bit_and b (2 ^ t % 2 ^ 8)) low ∙ masked-digit k b (omega arith) in
    elim (ℕ_discrete (digit k b) 1) [
      | yes e ↦
          let one : bit_and b (2 ^ bit_and i 7 % 2 ^ 8) ≡ 2 ^ k =
            whole ∙ ap (λ t. t * 2 ^ k) e ∙ omega arith in
          ground (arith, one, e, one-le-pow k 2)
      | no e ↦
          let none : digit k b ≡ 0 = omega (arith, digit-le k b) in
          let blank : bit_and b (2 ^ bit_and i 7 % 2 ^ 8) ≡ 0 =
            whole ∙ ap (λ t. t * 2 ^ k) none ∙ omega arith in
          ground (arith, blank, none)
    ]

one_bit-cons :
    (r : Reader) (d : ℕ) (ds : List ℕ) (i : ℕ) → one_bit r (d ∷ ds) i ≡ bit (r.buffer) i ∷ ds
unfolding one_bit
one_bit-cons r d ds i =
    let is_one = test_bit_iff (r.buffer) i in
    elim (ℕ_discrete (bit (r.buffer) i) 1) [
      | yes e ↦
          let t : test_bit (r.buffer) i ≡ true = is_one ∙ ground (arith, e) in
          rw (t) (ap (λ b. b ∷ ds) (sym e))
      | no e ↦
          let t : test_bit (r.buffer) i ≡ false = is_one ∙ ground (arith, e) in
          let none : 0 ≡ bit (r.buffer) i =
            omega (arith, digit-le (i % 8) (byte (r.buffer) (i / 8))) in
          rw (t) (ap (λ b. b ∷ ds) none)
    ]

one_bit-Taken :
    (r : Reader) (dest : List ℕ) → 0 < length dest → Taken r 1 dest (one_bit r dest (r.pos))
one_bit-Taken r [] room = absurd (omega arith)
one_bit-Taken r (d ∷ ds) room = rw (one_bit-cons r d ds (r.pos)) (
  refl,
  λ i lt.
      let b = bit (r.buffer) (r.pos) in
      let first = bit-at (b ∷ ds) i 0 0 (omega arith) (omega arith) in
      let place : r.pos ≡ r.pos + i = omega arith in
      let low : b % 2 ^ 8 % 2 ≡ b =
        omega (arith, digit-le (r.pos % 8) (byte (r.buffer) (r.pos / 8))) in
      first ∙ low ∙ ap (bit (r.buffer)) place,
)

many_bits-Taken :
    (r : Reader) (dest : List ℕ) (n : ℕ)
    → n ≤ 8 * length dest
    → Taken r n dest (many_bits r dest (r.pos) n)
unfolding many_bits
many_bits-Taken r dest n room =
    let k = (n + 7) / 2 ^ 3 - 1 in
    let len = length-store dest k 0 in
    let moved = app_bits_cpy-Moved (store dest k 0) 0 (r.buffer) (r.pos) n (omega (arith, len)) in
    (moved.0 ∙ len, λ i lt. ground (arith, moved.1 i))

-- The bytes after the ones that `memset` clears stay.
length-zero_bytes :
    (dest : List ℕ) (n : ℕ) → n ≤ length dest → length (zero_bytes dest n) ≡ length dest
unfolding zero_bytes
length-zero_bytes dest n h = omega (
  arith,
  length-append (replicate {A = ℕ} n 0) (drop n dest),
  length-replicate {A = ℕ} n 0,
  length-drop n dest,
)

byte-zeros : (n k : ℕ) (xs : List ℕ) → k < n → byte (replicate n 0 ++ xs) k ≡ 0
byte-zeros zero k xs h = absurd (omega arith)
byte-zeros (suc n) zero xs h = refl
byte-zeros (suc n) (suc k) xs h = byte-zeros n k xs (omega arith)

bit-zero_bytes : (dest : List ℕ) (n j : ℕ) → j < 8 * n → bit (zero_bytes dest n) j ≡ 0
unfolding zero_bytes
bit-zero_bytes dest n j h =
    ap (digit (j % 8)) (byte-zeros n (j / 8) (drop n dest) (omega arith)) ∙ digit-zero (j % 8)

has_bits :
    (r : Reader) (n : ℕ)
    → r.error ≡ false
    → r.pos + n ≤ r.max
    → (r.error || ltb (r.max) (r.pos + n)) ≡ false
has_bits r n ok room =
    let test : ltb (r.max) (r.pos + n) ≡ false = ground (arith, room) in
    ap (λ b. b || ltb (r.max) (r.pos + n)) ok ∙ test

lacks_bits :
    (r : Reader) (n : ℕ)
    → (r.error ≡ true) ⊎ (r.max < r.pos + n)
    → (r.error || ltb (r.max) (r.pos + n)) ≡ true
lacks_bits r n (inl e) = ap (λ b. b || ltb (r.max) (r.pos + n)) e
lacks_bits r n (inr short) = elim (Bool-cases (r.error)) [
  | inl e ↦ ap (λ b. b || ltb (r.max) (r.pos + n)) e
  | inr e ↦
      let test : ltb (r.max) (r.pos + n) ≡ true = ground (arith, short) in
      ap (λ b. b || ltb (r.max) (r.pos + n)) e ∙ test
]

-- `SerializeBits` from a reader that has the bits moves them to the caller's memory, whatever was
-- there, and goes on behind them.
pub serialize_bits-Taken :
    (r : Reader) (dest : List ℕ) (n : ℕ)
    → r.error ≡ false
    → r.pos + n ≤ r.max
    → n ≤ 8 * length dest
    → Taken r n dest ((serialize_bits r dest n).0)
      × ((serialize_bits r dest n).1 ≡ record r { pos = r.pos + n })
unfolding serialize_bits
serialize_bits-Taken r dest zero ok room fits =
    let guard = has_bits r 0 ok room in
    let place : r.pos ≡ r.pos + 0 = omega arith in
    rw (guard) ((refl, λ i lt. absurd (omega arith)), ap (λ p. record r { pos = p }) place)
serialize_bits-Taken r dest (suc zero) ok room fits =
    let guard = has_bits r 1 ok room in rw (guard) (one_bit-Taken r dest (omega arith), refl)
serialize_bits-Taken r dest (suc (suc n)) ok room fits =
    let guard = has_bits r (suc (suc n)) ok room in
    let several : (suc (suc n) == 1) ≡ false = ground arith in
    let some_bits : (suc (suc n) == 0) ≡ false = ground arith in
    rw (guard, several, some_bits) (many_bits-Taken r dest (suc (suc n)) fits, refl)

after_error : (r : Reader) → (if r.error then r else set_error r) ≡ record r { error = true }
unfolding set_error
after_error r = elim (Bool-cases (r.error)) [
  | inl e ↦
      let known : record r { error = r.error } ≡ record r { error = true } =
        ap (λ b. record r { error = b }) e in
      ap (λ (b : Bool). if b then r else record r { error = true }) e ∙ known
  | inr e ↦ ap (λ (b : Bool). if b then r else record r { error = true }) e
]

-- With an error before, or fewer bits left, it clears that memory, sets the error and stays where it is.
pub serialize_bits-refused :
    (r : Reader) (dest : List ℕ) (n : ℕ)
    → (r.error ≡ true) ⊎ (r.max < r.pos + n)
    → n ≤ 8 * length dest
    → ((i : ℕ) → i < n → bit ((serialize_bits r dest n).0) i ≡ 0)
      × ((serialize_bits r dest n).1 ≡ record r { error = true })
unfolding serialize_bits
serialize_bits-refused r dest zero short fits =
    rw (lacks_bits r 0 short) ((λ i lt. absurd (omega arith)), after_error r)
serialize_bits-refused r dest (suc zero) short fits = rw (lacks_bits r 1 short) (
  (λ i lt. bit-store dest 0 0 i (omega arith) ∙ ground (arith, digit-zero (i % 8))),
  after_error r,
)
serialize_bits-refused r dest (suc (suc n)) short fits =
    let several : (suc (suc n) == 1) ≡ false = ground arith in
    let some_bits : (suc (suc n) == 0) ≡ false = ground arith in
    rw (lacks_bits r (suc (suc n)) short, several, some_bits)
      ((λ i lt. bit-zero_bytes dest ((suc (suc n) + 7) / 2 ^ 3) i (omega arith)), after_error r)

four_bytes : (bs : List ℕ) → length bs ≡ 4 → le_value bs < 2 ^ 32
four_bytes [] e = absurd (omega arith)
four_bytes (a ∷ []) e = absurd (omega arith)
four_bytes (a ∷ b ∷ []) e = absurd (omega arith)
four_bytes (a ∷ b ∷ c ∷ []) e = absurd (omega arith)
four_bytes (a ∷ b ∷ c ∷ d ∷ []) e = omega arith
four_bytes (a ∷ b ∷ c ∷ d ∷ x ∷ xs) e = absurd (omega arith)

-- `<<` of a uint32_t takes 32 bits, the lowest first, whatever the variable held.
pub get_word-Taken :
    (r : Reader) (old v : ℕ)
    → r.error ≡ false
    → r.pos + 32 ≤ r.max
    → v < 2 ^ 32
    → ((i : ℕ) → i < 32 → bit (r.buffer) (r.pos + i) ≡ digit i v)
    → get_word old r ≡ (v, record r { pos = r.pos + 32 })
unfolding get_word serialize
get_word-Taken r old v ok room small same =
    let len = length-le_bytes 4 old in
    let taken = serialize_bits-Taken r (le_bytes 4 old) 32 ok room (omega arith) in
    let dest = (serialize_bits r (le_bytes 4 old) 32).0 in
    let value : le_value dest ≡ v =
      digit-injective 32 (le_value dest) v (four_bytes dest (taken.0.0)) small
        (λ i lt. bit-le_value dest i ∙ taken.0.1 i lt ∙ same i lt) in
    ap₂ (λ x y. (x, y)) value (taken.1)

pub get_word-refused :
    (r : Reader) (old : ℕ)
    → (r.error ≡ true) ⊎ (r.max < r.pos + 32)
    → (get_word old r).1 ≡ record r { error = true }
unfolding get_word serialize
get_word-refused r old short = (serialize_bits-refused r (le_bytes 4 old) 32 short (omega arith)).1
