-- ===== src/Sequence/Header/Packing.antt =====
-- Packing a header and reading its fields back.
use rudp_network_engine.Prelude.{ℕ, ◌+◌, ◌-◌, ◌*◌, ◌/◌, ◌%◌, ◌^◌, ◌<◌, ◌≡◌, arith, bit_and, ◌∙◌}
use rudp_network_engine.Prelude.Bits.{bit_or-disjoint, bit_and-mask, zero-bit_or}
use rudp_network_engine.Sequence.Number.{IsSeq}
use rudp_network_engine.Sequence.Number.Arithmetic.{make_seq-mod}
use rudp_network_engine.Sequence.Header.{pack, get_seq, get_acked_seq, get_history_word_count}

-- The three fields do not overlap: packing is their sum, each in its place.
pub pack-sum :
    (seq acked count : ℕ)
    → IsSeq seq
    → IsSeq acked
    → count < 16
    → pack seq acked count ≡ seq * 2 ^ 18 + acked * 2 ^ 4 + count
unfolding pack
pack-sum seq acked count hs ha hc =
    let e₁ : seq * 2 ^ 18 % 2 ^ 32 ≡ seq * 2 ^ 18 = omega arith in
    let e₂ : acked * 2 ^ 4 % 2 ^ 32 ≡ acked * 2 ^ 4 = omega arith in
    let e₃ : seq * 2 ^ 18 + acked * 2 ^ 4 ≡ (seq * 2 ^ 14 + acked) * 2 ^ 4 = omega arith in
    let e₄ : bit_and count 15 ≡ count = omega (arith, bit_and-mask 4 count) in
    rw (e₁, e₂, e₄, zero-bit_or, bit_or-disjoint 18 seq (acked * 2 ^ 4) (omega arith), e₃)
      (bit_or-disjoint 4 (seq * 2 ^ 14 + acked) count (omega arith) ∙ omega arith)

pub get_seq-div : (p : ℕ) → get_seq p ≡ p / 2 ^ 18 % 2 ^ 14
unfolding get_seq
get_seq-div p =
    omega (arith, make_seq-mod (bit_and (p / 2 ^ 18) (2 ^ 14 - 1)), bit_and-mask 14 (p / 2 ^ 18))

pub get_acked_seq-div : (p : ℕ) → get_acked_seq p ≡ p / 2 ^ 4 % 2 ^ 14
unfolding get_acked_seq
get_acked_seq-div p =
    omega (arith, make_seq-mod (bit_and (p / 2 ^ 4) (2 ^ 14 - 1)), bit_and-mask 14 (p / 2 ^ 4))

pub get_history_word_count-mod : (p : ℕ) → get_history_word_count p ≡ p % 16
unfolding get_history_word_count
get_history_word_count-mod p = bit_and-mask 4 p

-- Every header that is packed fits in 32 bits and gives its three fields back.
pub pack_fields :
    (seq acked count : ℕ)
    → IsSeq seq
    → IsSeq acked
    → count < 16
    → (pack seq acked count < 2 ^ 32)
      × (get_seq (pack seq acked count) ≡ seq)
      × (get_acked_seq (pack seq acked count) ≡ acked)
      × (get_history_word_count (pack seq acked count) ≡ count)
pack_fields seq acked count hs ha hc =
    let p = pack seq acked count in
    let e = pack-sum seq acked count hs ha hc in
    (
      omega (arith, e),
      omega (arith, e, get_seq-div p),
      omega (arith, e, get_acked_seq-div p),
      omega (arith, e, get_history_word_count-mod p),
    )

-- Packing the fields read from any 32-bit word gives the word back.
pack-get : (p : ℕ) → p < 2 ^ 32 → pack (get_seq p) (get_acked_seq p) (get_history_word_count p) ≡ p
pack-get p h =
    let e₁ = get_seq-div p in
    let e₂ = get_acked_seq-div p in
    let e₃ = get_history_word_count-mod p in
    omega (
      arith,
      e₁,
      e₂,
      e₃,
      pack-sum (get_seq p) (get_acked_seq p) (get_history_word_count p) (omega (arith, e₁))
          (omega (arith, e₂)) (omega (arith, e₃)),
    )
