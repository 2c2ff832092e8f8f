-- ===== src/BitStream/Copy/Short.antt =====
-- The copy of at most 8 bits.
use rudp_network_engine.Prelude.{
  ℕ, ◌+◌, ◌-◌, ◌*◌, ◌/◌, ◌%◌, ◌^◌, ◌≤◌, ◌<◌, ◌≡◌, ◌≢◌, ap, ◌∙◌, List, length, bit_and, bit_or, ltb,
  leb, ◌==◌, true, false, if◌then◌else◌, arith, ℕ_discrete, dec_lt, Bool-cases, inl, inr,
}
use rudp_network_engine.Prelude.Bits.{bit_and-le}
use rudp_network_engine.Prelude.Digit.{digit, digit-small, digit-bit_and, digit-bit_or, digit-shr}
use rudp_network_engine.BitStream.Copy.{byte, store, bit, not32, shl32, short_accu, short_store}
use rudp_network_engine.BitStream.Copy.Masks.{
  bit-at, length-store, digit-shl32, digit-not32, replaces_masked, replaces_rest, digit-from,
  digit-after,
}

-- The accumulator holds the bits of the source, the first one lowest.
pub digit-short_accu :
    (src : List ℕ) (sb n t : ℕ) → n ≤ 8 → t < n → digit t (short_accu src sb n) ≡ bit src (sb + t)
unfolding short_accu
digit-short_accu src sb n t h lt =
    let b₀ = byte src (sb / 8) in
    let b₁ = byte src ((sb + n - 1) / 8) in
    let low : digit t (b₀ / 2 ^ (sb % 8)) ≡ digit (t + sb % 8) b₀ = digit-shr t (sb % 8) b₀ in
    let inside : t + sb % 8 < 8 → bit src (sb + t) ≡ digit (t + sb % 8) b₀ =
      λ k. bit-at src (sb + t) (sb / 8) (t + sb % 8) (omega arith) k in
    elim (ℕ_discrete (sb / 8) ((sb + n - 1) / 8)) [
      | yes e ↦ ground (arith, e, low, inside (omega arith))
      | no ne ↦ elim (dec_lt (t + sb % 8) 8) [
        | yes k ↦ ground (
          arith,
          ne,
          low,
          inside k,
          digit-bit_or t (b₀ / 2 ^ (sb % 8)) (shl32 b₁ (8 - sb % 8)),
          digit-shl32 t b₁ (8 - sb % 8) (omega arith),
        )
        | no k ↦ ground (
          arith,
          ne,
          low,
          digit-bit_or t (b₀ / 2 ^ (sb % 8)) (shl32 b₁ (8 - sb % 8)),
          digit-shl32 t b₁ (8 - sb % 8) (omega arith),
          digit-small (t + sb % 8) 8 b₀ (omega arith) (omega arith),
          bit-at src (sb + t) ((sb + n - 1) / 8) (t - (8 - sb % 8)) (omega arith) (omega arith),
        )
      ]
    ]

-- The bits that go to the first byte, and the rest in the next one.
bit-first_store :
    (dest : List ℕ) (db a j : ℕ)
    → db / 8 < length dest
    → bit
        (store dest (db / 8) (
          bit_or
            (bit_and (byte dest (db / 8)) (not32 (shl32 255 (db % 8))))
            (bit_and (shl32 a (db % 8)) (shl32 255 (db % 8)))))
        j
      ≡ (if j / 8 == db / 8
          then (if ltb (j % 8) (db % 8) then bit dest j else digit (j % 8 - db % 8) a)
          else bit dest j)
bit-first_store dest db a j room = ground (
  arith,
  digit-shl32 (j % 8) a (db % 8) (omega arith),
  digit-from (j % 8) (db % 8) (omega arith),
  replaces_masked dest (db / 8) (shl32 255 (db % 8)) (shl32 a (db % 8)) j room (omega arith),
)

bit-last_store :
    (dest : List ℕ) (k e v j : ℕ)
    → k < length dest
    → bit
        (store dest k
          (bit_or (bit_and (byte dest k) (shl32 254 e)) (bit_and v (not32 (shl32 254 e)))))
        j
      ≡ (if j / 8 == k then (if leb (j % 8) e then digit (j % 8) v else bit dest j) else bit dest j)
bit-last_store dest k e v j room = ground (
  arith,
  digit-after (j % 8) e (omega arith),
  replaces_rest dest k (shl32 254 e) v j room (omega arith),
)

abbrev pub Landed : List ℕ → ℕ → ℕ → ℕ → ℕ → ℕ → Type 0
Landed dest db n a j b =
    b ≡ (if leb db j then (if ltb j (db + n) then digit (j - db) a else bit dest j) else bit dest j)

pub over-Landed :
    (dest : List ℕ) (db n a j b b₀ : ℕ)
    → 0 < n
    → n ≤ 8
    → db / 8 ≢ (db + n - 1) / 8
    → b₀ ≡ (
        if j / 8 == db / 8
        then (if ltb (j % 8) (db % 8) then bit dest j else digit (j % 8 - db % 8) a)
        else bit dest j)
    → b ≡ (
        if j / 8 == (db + n - 1) / 8
        then (if leb (j % 8) ((db + n - 1) % 8) then digit (j % 8 + (8 - db % 8)) a else b₀)
        else b₀)
    → Landed dest db n a j b
over-Landed dest db n a j b b₀ pos h q e₀ e = elim (ℕ_discrete (j / 8) (db / 8)) [
  | yes k ↦
      let t : j % 8 - db % 8 ≡ j - db = omega arith in ground (arith, k, ap (λ t. digit t a) t)
  | no k ↦ elim (ℕ_discrete (j / 8) ((db + n - 1) / 8)) [
    | yes l ↦
        let t : j % 8 + (8 - db % 8) ≡ j - db = omega arith in
        ground (arith, k, l, ap (λ t. digit t a) t)
    | no l ↦ ground (arith, k, l)
  ]
]

-- One byte: `MultiMask` keeps the bits outside of the range.
bit-within_store :
    (dest : List ℕ) (db e a j : ℕ)
    → db / 8 < length dest
    → bit
        (store dest (db / 8) (
          bit_or
            (bit_and
              (byte dest (db / 8))
              (not32 (bit_and (shl32 255 (db % 8)) (not32 (shl32 254 e)))))
            (bit_and (shl32 a (db % 8)) (bit_and (shl32 255 (db % 8)) (not32 (shl32 254 e))))))
        j
      ≡ (if j / 8 == db / 8
          then (if ltb (j % 8) (db % 8)
              then bit dest j
              else (if leb (j % 8) e then digit (j % 8 - db % 8) a else bit dest j))
          else bit dest j)
bit-within_store dest db e a j room =
    let first = shl32 255 (db % 8) in
    let last = shl32 254 e in
    ground (
      arith,
      digit-shl32 (j % 8) a (db % 8) (omega arith),
      digit-from (j % 8) (db % 8) (omega arith),
      digit-after (j % 8) e (omega arith),
      digit-bit_and (j % 8) first (not32 last),
      digit-not32 (j % 8) last (omega arith) (omega arith),
      replaces_masked dest (db / 8) (bit_and first (not32 last)) (shl32 a (db % 8)) j room
          (omega (arith, bit_and-le first (not32 last))),
    )

pub within-Landed :
    (dest : List ℕ) (db n a j b : ℕ)
    → 0 < n
    → n ≤ 8
    → db / 8 ≡ (db + n - 1) / 8
    → b ≡ (
        if j / 8 == db / 8
        then (if ltb (j % 8) (db % 8)
            then bit dest j
            else (if leb (j % 8) ((db + n - 1) % 8) then digit (j % 8 - db % 8) a else bit dest j))
        else bit dest j)
    → Landed dest db n a j b
within-Landed dest db n a j b pos h q e = elim (ℕ_discrete (j / 8) (db / 8)) [
  | yes k ↦
      let t : j % 8 - db % 8 ≡ j - db = omega arith in ground (arith, k, ap (λ t. digit t a) t)
  | no k ↦ ground (arith, k)
]

-- The accumulator's bits land between `db` and `db + n`, and nothing else changes.
pub bit-short_store :
    (dest : List ℕ) (db n a j : ℕ)
    → 0 < n
    → n ≤ 8
    → db + n ≤ 8 * length dest
    → Landed dest db n a j (bit (short_store dest db n a) j)
unfolding short_store
bit-short_store dest db n a j pos h room =
    let s = db % 8 in
    let e = (db + n - 1) % 8 in
    elim (ℕ_discrete (db / 8) ((db + n - 1) / 8)) [
      | yes q ↦
          let test : (db / 8 == (db + n - 1) / 8) ≡ true = ground (arith, q) in
          within-Landed dest db n a j (bit (short_store dest db n a) j) pos h q
            (rw (test) (bit-within_store dest db e a j (omega arith)))
      | no q ↦
          let first = shl32 255 s in
          let test : (db / 8 == (db + n - 1) / 8) ≡ false = ground (arith, q) in
          let w = bit_or (bit_and (byte dest (db / 8)) (not32 first)) (bit_and (shl32 a s) first) in
          let head = store dest (db / 8) w in
          let inside : (db + n - 1) / 8 < length head =
            omega (arith, length-store dest (db / 8) w) in
          over-Landed dest db n a j (bit (short_store dest db n a) j) (bit head j) pos h q
            (bit-first_store dest db a j (omega arith))
            (rw (test) (
              bit-last_store head ((db + n - 1) / 8) e (a / 2 ^ (8 - s)) j inside
              ∙ ap
                  (λ t.
                    if j / 8 == (db + n - 1) / 8
                    then (if leb (j % 8) e then t else bit head j)
                    else bit head j)
                  (digit-shr (j % 8) (8 - s) a)))
    ]

pub length-short_store :
    (dest : List ℕ) (db n a : ℕ) → length (short_store dest db n a) ≡ length dest
unfolding short_store
length-short_store dest db n a = elim (Bool-cases (db / 8 == (db + n - 1) / 8)) [
  | inl t ↦ rw (t) (length-store dest (db / 8) _)
  | inr t ↦ rw (t) (length-store _ ((db + n - 1) / 8) _ ∙ length-store dest (db / 8) _)
]
