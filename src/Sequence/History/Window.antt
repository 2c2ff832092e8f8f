-- ===== src/Sequence/History/Window.antt =====
-- The history as what it stands for: the statuses added last, newest first.
use mathlib.Core.Option
use rudp_network_engine.Prelude.{
  ℕ, zero, suc, ◌-◌, ◌*◌, ◌/◌, ◌%◌, ◌^◌, ◌≤◌, ◌<◌, ◌≡◌, refl, sym, ap, ◌∙◌, Bool, true, false,
  arith, Option, some, List, [], ◌∷◌, length, get_elem?, get_or, replicate, dec_lt, bit_and, bit_or,
  ◌==◌, if◌then◌else◌,
}
use Prim.Native.Nat.{bit_and-bitwise}
use rudp_network_engine.Prelude.Bits.{bit_and-mask}
use rudp_network_engine.Sequence.History.{
  History, IsHistory, AllWords, reset, shift_words, add_delivery_status, word_bit, is_delivered,
}
use rudp_network_engine.Sequence.History.Bit.{
  word_bit-odd, shifted_word, carry_out, word_bit-shifted-zero, word_bit-shifted-suc,
}

-- Bit `i` of the words laid end to end.
bit_at : List ℕ → ℕ → Option Bool
bit_at ws i = Option.map (word_bit (i % 32)) (get_elem? ws (i / 32))

is_delivered-bit_at : (h : History) (i : ℕ) → is_delivered h i ≡ bit_at h i
unfolding is_delivered bit_at
is_delivered-bit_at h i = rw (bit_and-mask 5 i)

bit_at-head : (w : ℕ) (ws : List ℕ) (i : ℕ) → i < 32 → bit_at (w ∷ ws) i ≡ some (word_bit i w)
unfolding bit_at
bit_at-head w ws i h =
    let q : i / 32 ≡ 0 = omega arith in let r : i % 32 ≡ i = omega arith in rw (q, r)

bit_at-tail : (w : ℕ) (ws : List ℕ) (i : ℕ) → 32 ≤ i → bit_at (w ∷ ws) i ≡ bit_at ws (i - 32)
unfolding bit_at
bit_at-tail w ws i h =
    let q : i / 32 ≡ suc ((i - 32) / 32) = omega arith in
    let r : i % 32 ≡ (i - 32) % 32 = omega arith in rw (q, r)

shift_words-zero :
    (c : ℕ) (ws : List ℕ) → c < 2 → 0 < length ws → bit_at (shift_words c ws) 0 ≡ some (c == 1)
unfolding shift_words
shift_words-zero c [] h p = absurd (omega arith)
shift_words-zero c (w ∷ ws) h p =
    bit_at-head _ _ 0 (omega arith) ∙ ap some (word_bit-shifted-zero w c h)

shift_words-suc :
    (c : ℕ) (ws : List ℕ) (i : ℕ)
    → c < 2
    → suc i < 32 * length ws
    → bit_at (shift_words c ws) (suc i) ≡ bit_at ws i
unfolding shift_words
shift_words-suc c [] i h p = absurd (omega arith)
shift_words-suc c (w ∷ ws) i h p = elim (dec_lt i 32) [
  | yes low ↦ elim (dec_lt i 31) [
    | yes lower ↦ ground (
      arith,
      bit_at-head w ws i,
      bit_at-head (bit_or (w * 2 % 2 ^ 32) c) (shift_words (bit_and w (2 ^ 31) / 2 ^ 31) ws)
          (suc i),
      word_bit-shifted-suc i w c,
    )
    | no top ↦
        let e : i ≡ 31 = omega arith in
        rw (e, bit_at-head w ws 31 (omega arith))
          (bit_at-tail _ _ 32 (omega arith)
            ∙ shift_words-zero (bit_and w (2 ^ 31) / 2 ^ 31) ws (omega (arith, carry_out w))
                (omega arith)
            ∙ ground (arith, word_bit-odd 31 w, carry_out w))
  ]
  | no high ↦
      let e : suc i - 32 ≡ suc (i - 32) = omega arith in
      bit_at-tail _ _ (suc i) (omega arith)
      ∙ ap (bit_at (shift_words (bit_and w (2 ^ 31) / 2 ^ 31) ws)) e
      ∙ shift_words-suc (bit_and w (2 ^ 31) / 2 ^ 31) ws (i - 32) (omega (arith, carry_out w))
          (omega arith)
      ∙ sym (bit_at-tail w ws i (omega arith))
]

carry_in-lt : (b : Bool) → (if b then 1 else 0) < 2
carry_in-lt b = ground arith

-- The newest status of a history is the one that was added last.
pub is_delivered-add-zero :
    (b : Bool) (h : History) → IsHistory h → is_delivered (add_delivery_status b h) 0 ≡ some b
unfolding add_delivery_status
is_delivered-add-zero true h v =
    is_delivered-bit_at _ 0 ∙ shift_words-zero 1 h (omega arith) (omega arith)
is_delivered-add-zero false h v =
    is_delivered-bit_at _ 0 ∙ shift_words-zero 0 h (omega arith) (omega arith)

-- Every older status moves one place up.
pub is_delivered-add-suc :
    (b : Bool) (h : History) (i : ℕ)
    → IsHistory h
    → suc i < 256
    → is_delivered (add_delivery_status b h) (suc i) ≡ is_delivered h i
unfolding add_delivery_status
is_delivered-add-suc b h i v lt =
    is_delivered-bit_at _ (suc i)
    ∙ shift_words-suc (if b then 1 else 0) h i (carry_in-lt b) (omega arith)
    ∙ sym (is_delivered-bit_at h i)

AllWords-shift : (c : ℕ) (ws : List ℕ) → c < 2 → AllWords (shift_words c ws)
unfolding shift_words
AllWords-shift c [] h = tt
AllWords-shift c (w ∷ ws) h = (
  omega (arith, shifted_word w c h),
  AllWords-shift (bit_and w (2 ^ 31) / 2 ^ 31) ws (omega (arith, carry_out w)),
)

length-shift : (c : ℕ) (ws : List ℕ) → length (shift_words c ws) ≡ length ws
unfolding shift_words
length-shift c [] = refl
length-shift c (w ∷ ws) = ap suc (length-shift (bit_and w (2 ^ 31) / 2 ^ 31) ws)

pub add-IsHistory : (b : Bool) (h : History) → IsHistory h → IsHistory (add_delivery_status b h)
unfolding add_delivery_status
add-IsHistory b h v = (
  length-shift (if b then 1 else 0) h ∙ v.0,
  AllWords-shift (if b then 1 else 0) h (carry_in-lt b),
)

get_elem?-replicate : (n i : ℕ) → i < n → get_elem? (replicate n (zero)) i ≡ some zero
get_elem?-replicate zero i h = absurd (omega arith)
get_elem?-replicate (suc n) zero h = refl
get_elem?-replicate (suc n) (suc i) h = get_elem?-replicate n i (omega arith)

pub reset-IsHistory : IsHistory reset
unfolding reset
reset-IsHistory = omega arith

pub is_delivered-reset : (i : ℕ) → i < 256 → is_delivered reset i ≡ some false
unfolding reset
is_delivered-reset i h =
    is_delivered-bit_at (replicate 8 0) i
    ∙ (unfold bit_at in
        rw (get_elem?-replicate 8 (i / 32) (omega arith)) (ap some (clear (i % 32))))
  where
    clear : (k : ℕ) → word_bit k 0 ≡ false
    clear k = unfold word_bit in rw (bit_and-bitwise 0 (2 ^ k))

-- The history after statuses were added to an empty one, the newest first in the list.
abbrev pub recorded : List Bool → History
recorded [] = reset
recorded (b ∷ bs) = add_delivery_status b (recorded bs)

pub recorded-IsHistory : (bs : List Bool) → IsHistory (recorded bs)
recorded-IsHistory [] = reset-IsHistory
recorded-IsHistory (b ∷ bs) = add-IsHistory b (recorded bs) (recorded-IsHistory bs)

-- The eight shifted words keep exactly the last 256 statuses: at every index below 256 the history
-- answers with the status that was added that many additions ago, and with `false` where fewer
-- were added.
pub is_delivered-recorded :
    (bs : List Bool) (i : ℕ) → i < 256 → is_delivered (recorded bs) i ≡ some (get_or bs i false)
is_delivered-recorded [] i h = is_delivered-reset i h
is_delivered-recorded (b ∷ bs) zero h =
    is_delivered-add-zero b (recorded bs) (recorded-IsHistory bs)
is_delivered-recorded (b ∷ bs) (suc i) h =
    is_delivered-add-suc b (recorded bs) i (recorded-IsHistory bs) h
    ∙ is_delivered-recorded bs i (omega arith)
