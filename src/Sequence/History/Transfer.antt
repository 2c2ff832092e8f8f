-- ===== src/Sequence/History/Transfer.antt =====
-- The history on the wire: what `Write` puts into a stream, and what `Read` makes of it.
use mathlib.Core.List.{append-nil, append_assoc}
use rudp_network_engine.Prelude.{
  ℕ, zero, suc, ◌*◌, ◌/◌, ◌≤◌, ◌<◌, ◌≡◌, refl, sym, ◌∙◌, min, List, [], ◌∷◌, ◌++◌, length, take,
  drop, get_elem?, arith, length-append, length-take, length-drop, replicate,
}
use rudp_network_engine.Sequence.Stream.{WordSource, Feeds, list_sink}
use rudp_network_engine.Sequence.History.{
  History, IsHistory, AllWords, write_words, read_words, write, read, is_delivered,
}

write_words-take : (n : ℕ) (ws out : List ℕ) → write_words list_sink n ws out ≡ out ++ take n ws
unfolding write_words
write_words-take zero ws out = sym (append-nil out)
write_words-take (suc n) [] out = sym (append-nil out)
write_words-take (suc n) (w ∷ ws) out =
    write_words-take n ws (out ++ (w ∷ [])) ∙ append_assoc out (w ∷ []) (take n ws)

-- `Write` appends the first words of the history.
pub write-take :
    (h : History) (n : ℕ) (out : List ℕ) → n ≤ 8 → write list_sink h n out ≡ out ++ take n h
unfolding write
write-take h n out le = let e : min n 8 ≡ n = omega arith in rw e (write_words-take n h out)

module _ (source : WordSource) where
  read_words-Feeds :
      (n : ℕ) (ws hs : List ℕ) (r r' : source.Stream)
      → length ws ≡ n
      → n ≤ length hs
      → Feeds source r ws r'
      → read_words source n hs r ≡ (ws ++ drop n hs, r')
  unfolding read_words
  read_words-Feeds zero [] hs r r' e le f = rw f
  read_words-Feeds zero (w ∷ ws) hs r r' e le f = absurd (omega arith)
  read_words-Feeds (suc n) [] hs r r' e le f = absurd (omega arith)
  read_words-Feeds (suc n) (w ∷ ws) [] r r' e le f = absurd (omega arith)
  read_words-Feeds (suc n) (w ∷ ws) (h ∷ hs) r r' e le f =
      rw (f.1) (rw (read_words-Feeds n ws hs f.0 r' (omega arith) (omega arith) f.2))

  -- `Read` of `n` words overwrites the first `n` words of the storage.
  pub read-Feeds :
      (n : ℕ) (ws : List ℕ) (h : History) (r r' : source.Stream)
      → length ws ≡ n
      → n ≤ 8
      → length h ≡ 8
      → Feeds source r ws r'
      → read source h n r ≡ (ws ++ drop n h, r')
  unfolding read
  read-Feeds n ws h r r' e le len f =
      let m : min n 8 ≡ n = omega arith in rw m (read_words-Feeds n ws h r r' e (omega arith) f)

get_elem?-append :
    (xs ys : List ℕ) (i : ℕ) → i < length xs → get_elem? (xs ++ ys) i ≡ get_elem? xs i
get_elem?-append [] ys i h = absurd (omega arith)
get_elem?-append (x ∷ xs) ys zero h = refl
get_elem?-append (x ∷ xs) ys (suc i) h = get_elem?-append xs ys i (omega arith)

get_elem?-take : (n i : ℕ) (xs : List ℕ) → i < n → get_elem? (take n xs) i ≡ get_elem? xs i
get_elem?-take zero i xs h = absurd (omega arith)
get_elem?-take (suc n) i [] h = refl
get_elem?-take (suc n) zero (x ∷ xs) h = refl
get_elem?-take (suc n) (suc i) (x ∷ xs) h = get_elem?-take n i xs (omega arith)

AllWords-append : (xs ys : List ℕ) → AllWords xs → AllWords ys → AllWords (xs ++ ys)
AllWords-append [] ys p q = q
AllWords-append (x ∷ xs) ys p q = (p.0, AllWords-append xs ys p.1 q)

pub AllWords-take : (n : ℕ) (xs : List ℕ) → AllWords xs → AllWords (take n xs)
AllWords-take zero xs p = tt
AllWords-take (suc n) [] p = tt
AllWords-take (suc n) (x ∷ xs) p = (p.0, AllWords-take n xs p.1)

AllWords-drop : (n : ℕ) (xs : List ℕ) → AllWords xs → AllWords (drop n xs)
AllWords-drop zero xs p = p
AllWords-drop (suc n) [] p = tt
AllWords-drop (suc n) (x ∷ xs) p = AllWords-drop n xs p.1

-- The history that a reader with an empty storage ends up with.
abbrev pub transferred : ℕ → History → History
transferred n h = take n h ++ drop n (replicate 8 0)

pub transferred-IsHistory :
    (n : ℕ) (h : History) → n ≤ 8 → IsHistory h → IsHistory (transferred n h)
transferred-IsHistory n h le v = (
  omega (
    arith,
    length-append {0} (take n h) (drop n (replicate 8 0)),
    length-take {0} n h,
    length-drop {0} n (replicate 8 (zero)),
    v.0,
  ),
  AllWords-append (take n h) (drop n (replicate 8 0)) (AllWords-take n h v.1)
      (AllWords-drop n (replicate 8 0) (omega arith)),
)

-- It answers as the writer's does, for the statuses in the words that were sent.
pub is_delivered-transferred :
    (n i : ℕ) (h : History)
    → n ≤ 8
    → IsHistory h
    → i < n * 32
    → is_delivered (transferred n h) i ≡ is_delivered h i
unfolding is_delivered
is_delivered-transferred n i h le v lt =
    rw
      (get_elem?-append (take n h) (drop n (replicate 8 0)) (i / 32)
        (omega (arith, length-take {0} n h, v.0)))
      (rw (get_elem?-take n (i / 32) h (omega arith)))
