-- ===== src/Ids/Examples.antt =====
-- The theorems on ids at small inputs.
use rudp_network_engine.Prelude.{◌≡◌, [], ◌∷◌, arith}
use rudp_network_engine.Ids.{IdAllocator, allocate}
use rudp_network_engine.Ids.Distinct.{IsFor, count, allocate-IsFor}

-- 1 is held, 2 is free, and 3 is next.
abbrev some_ids : IdAllocator
some_ids = record { counter = 3; free_ids = 2 ∷ [] }

some_ids-IsFor : IsFor some_ids (1 ∷ [])
some_ids-IsFor = record { distinct = λ n. ground arith; below = λ n k. ground (arith, k) }

allocate-IsFor_example :
    (count (allocate some_ids).0 (1 ∷ []) ≡ 0)
    × IsFor (allocate some_ids).1 ((allocate some_ids).0 ∷ 1 ∷ [])
allocate-IsFor_example = allocate-IsFor some_ids (1 ∷ []) some_ids-IsFor (omega arith)
