-- ===== src/Ids/Distinct.antt =====
-- No id is given to two holders at a time.
use rudp_network_engine.Prelude.{
  ℕ, ◌+◌, ◌^◌, ◌≤◌, ◌<◌, ◌≡◌, refl, List, [], ◌∷◌, ◌++◌, ◌==◌, if◌then◌else◌, arith,
}
use rudp_network_engine.Ids.{IdAllocator, allocate_from, allocate, free}

-- How often an id occurs.
abbrev pub count : ℕ → List ℕ → ℕ
count n [] = 0
count n (x ∷ xs) = (if n == x then 1 else 0) + count n xs

pub count-append : (n : ℕ) (xs ys : List ℕ) → count n (xs ++ ys) ≡ count n xs + count n ys
count-append n [] ys = omega arith
count-append n (x ∷ xs) ys = omega (arith, count-append n xs ys)

-- The ids that are free and those that are held are all different, and below the counter.
pub record IsAllocator (free_ids : List ℕ) (counter : ℕ) (held : List ℕ) : Type 0 where
  pub distinct : (n : ℕ) → count n free_ids + count n held ≤ 1
  pub below : (n : ℕ) → counter ≤ n → count n free_ids + count n held ≡ 0

abbrev pub IsFor : IdAllocator → List ℕ → Type 0
IsFor s held = IsAllocator s.free_ids s.counter held

allocate_from-IsFor :
    (s : IdAllocator) (free_ids held : List ℕ)
    → IsAllocator free_ids s.counter held
    → s.free_ids ≡ free_ids
    → s.counter + 1 < 2 ^ 32
    → (count (allocate_from s free_ids).0 held ≡ 0)
      × IsFor (allocate_from s free_ids).1 ((allocate_from s free_ids).0 ∷ held)
unfolding allocate_from
allocate_from-IsFor s [] held v e h = (
  omega (arith, v.below s.counter),
  rw (e) record {
    distinct = λ n. ground (arith, v.distinct n, v.below n, v.below s.counter);
    below = λ n k. ground (arith, v.below n, k, h);
  },
)
allocate_from-IsFor s (id ∷ rest) held v e h = (
  ground (arith, v.distinct id),
  record {
    distinct = λ n. ground (arith, v.distinct n);
    below = λ n k. ground (arith, v.below n, k);
  },
)

-- While fewer than 2 ^ 32 - 1 ids were made, an id that is given out is held by nobody, and the ids
-- stay different with it among those held.
pub allocate-IsFor :
    (s : IdAllocator) (held : List ℕ)
    → IsFor s held
    → s.counter + 1 < 2 ^ 32
    → (count (allocate s).0 held ≡ 0) × IsFor (allocate s).1 ((allocate s).0 ∷ held)
unfolding allocate
allocate-IsFor s held v h = allocate_from-IsFor s s.free_ids held v refl h

-- An id that its holder frees goes from the ids that are held to those that are free, and the ids stay
-- different.
free-IsFor :
    (s : IdAllocator) (id : ℕ) (held : List ℕ) → IsFor s (id ∷ held) → IsFor (free s id) held
unfolding free
free-IsFor s id held v = record {
  distinct = λ n. omega (arith, v.distinct n, count-append n s.free_ids (id ∷ []));
  below = λ n k. omega (arith, v.below n k, count-append n s.free_ids (id ∷ []));
}
