-- ===== src/BitStream/Transfer/Words.antt =====
-- A list of words written one after the other.
use rudp_network_engine.Prelude.{
  ℕ, suc, ◌+◌, ◌*◌, ◌≤◌, ◌<◌, ◌≡◌, refl, sym, ap, ◌∙◌, subst, List, [], ◌∷◌, length, arith, dec_lt,
}
use rudp_network_engine.BitStream.Copy.{bit}
use rudp_network_engine.BitStream.Writer.{Writer, put_word}
use rudp_network_engine.BitStream.Writer.Appended.{IsWriter, put_word-Appended, put_word-full}
use rudp_network_engine.BitStream.Reader.{Reader}
use rudp_network_engine.BitStream.Reader.Taken.{get_word-Taken}
use rudp_network_engine.BitStream.Transfer.{reader_source, Receives}
use rudp_network_engine.Sequence.History.{AllWords}
use rudp_network_engine.Sequence.Stream.{Feeds}

abbrev pub put_words : List ℕ → Writer → Writer
put_words [] w = w
put_words (x ∷ xs) w = put_words xs (put_word w x)

-- The words go behind what is there.
pub record Extended (w : Writer) (n : ℕ) (w' : Writer) : Type 0 where
  pub still : IsWriter w'
  pub pos_after : w'.pos ≡ w.pos + n
  pub before : (j : ℕ) → j < w.pos → bit (w'.buffer) j ≡ bit (w.buffer) j

pub put_words-Extended :
    (xs : List ℕ) (w : Writer)
    → IsWriter w
    → w.pos + 32 * length xs ≤ w.max
    → Extended w (32 * length xs) (put_words xs w)
put_words-Extended [] w v room = record {
  still = v;
  pos_after = omega arith;
  before = λ j lt. refl;
}
put_words-Extended (x ∷ xs) w v room =
    let a = put_word-Appended w v x (omega arith) in
    let rest =
      put_words-Extended xs (put_word w x) (a.still) (omega (arith, a.pos_after, a.max_kept)) in
    record {
      still = rest.still;
      pos_after = omega (arith, rest.pos_after, a.pos_after);
      before = λ j lt. rest.before j (omega (arith, a.pos_after)) ∙ a.before j lt;
    }

-- A reader that received the words, and stands where they start, is fed them, and ends behind them.
pub put_words-Feeds :
    (skipped : ℕ) (xs : List ℕ) (w : Writer) (r : Reader)
    → IsWriter w
    → w.pos + 32 * length xs ≤ w.max
    → AllWords xs
    → Receives skipped (put_words xs w) r
    → skipped + r.pos ≡ w.pos
    → Feeds reader_source r xs (record r { pos = r.pos + 32 * length xs })
put_words-Feeds skipped [] w r v room words got at =
    let place : r.pos ≡ r.pos + 32 * 0 = omega arith in ap (λ p. record r { pos = p }) place
put_words-Feeds skipped (x ∷ xs) w r v room words got at =
    let a = put_word-Appended w v x (omega arith) in
    let fits : (put_word w x).pos + 32 * length xs ≤ (put_word w x).max =
      omega (arith, a.pos_after, a.max_kept) in
    let rest = put_words-Extended xs (put_word w x) (a.still) fits in
    let r' : Reader = record r { pos = r.pos + 32 } in
    let end : r.pos + 32 + 32 * length xs ≡ r.pos + 32 * suc (length xs) = omega arith in
    (
      r',
      get_word-Taken r 0 x got.ok (omega (arith, got.whole, rest.pos_after, a.pos_after)) (words.0)
          (λ i lt.
            let place : skipped + (r.pos + i) ≡ w.pos + i = omega (arith, at) in
            got.agree (r.pos + i) (omega (arith, rest.pos_after, a.pos_after))
            ∙ ap (bit ((put_words xs (put_word w x)).buffer)) place
            ∙ rest.before (w.pos + i) (omega (arith, a.pos_after))
            ∙ a.new i lt),
      subst (λ p. Feeds reader_source r' xs (record r { pos = p })) end
          (put_words-Feeds skipped xs (put_word w x) r' (a.still) fits (words.1)
            record { ok = got.ok; whole = got.whole; agree = got.agree }
            (omega (arith, at, a.pos_after))),
    )

-- Once a word has no room, none of the following is written.
pub put_words-full : (xs : List ℕ) (w : Writer) → w.max < w.pos + 32 → put_words xs w ≡ w
put_words-full [] w full = refl
put_words-full (x ∷ xs) w full =
    ap (put_words xs) (put_word-full w x full) ∙ put_words-full xs w full

-- Words that have no room leave what is there too.
pub put_words-kept :
    (xs : List ℕ) (w : Writer)
    → IsWriter w
    → (w.pos ≤ (put_words xs w).pos)
      × ((j : ℕ) → j < w.pos → bit ((put_words xs w).buffer) j ≡ bit (w.buffer) j)
put_words-kept [] w v = (omega arith, λ j lt. refl)
put_words-kept (x ∷ xs) w v = elim (dec_lt (w.max) (w.pos + 32)) [
  | yes full ↦
      subst
        (λ w'.
          (w.pos ≤ (put_words xs w').pos)
          × ((j : ℕ) → j < w.pos → bit ((put_words xs w').buffer) j ≡ bit (w.buffer) j))
        (sym (put_word-full w x full)) (put_words-kept xs w v)
  | no room ↦
      let a = put_word-Appended w v x (omega arith) in
      let rest = put_words-kept xs (put_word w x) (a.still) in
      (
        omega (arith, rest.0, a.pos_after),
        λ j lt. rest.1 j (omega (arith, a.pos_after)) ∙ a.before j lt,
      )
]

pub put_words-IsWriter : (xs : List ℕ) (w : Writer) → IsWriter w → IsWriter (put_words xs w)
put_words-IsWriter [] w v = v
put_words-IsWriter (x ∷ xs) w v = elim (dec_lt (w.max) (w.pos + 32)) [
  | yes full ↦
      subst (λ w'. IsWriter (put_words xs w')) (sym (put_word-full w x full))
        (put_words-IsWriter xs w v)
  | no room ↦ put_words-IsWriter xs (put_word w x) ((put_word-Appended w v x (omega arith)).still)
]
