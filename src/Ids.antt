-- ===== src/Ids.antt =====
-- Project/Network/src/utils/IDAllocator.h and IDAllocator.cpp: the ids of clients, used again once
-- they are free. Each operation is one step: the mutex and the atomic counter make it so.
pub mod Distinct
mod Examples
use rudp_network_engine.Prelude.{ℕ, ◌+◌, ◌%◌, ◌^◌, List, [], ◌∷◌, ◌++◌}

pub record IdAllocator : Type 0 where
  pub counter : ℕ
  pub free_ids : List ℕ

-- `Allocate`, by the queue of free ids.
unfoldable pub allocate_from : IdAllocator → List ℕ → ℕ × IdAllocator
allocate_from s [] = (s.counter, record s { counter = (s.counter + 1) % 2 ^ 32 })
allocate_from s (id ∷ rest) = (id, record s { free_ids = rest })

-- `Allocate`
unfoldable pub allocate : IdAllocator → ℕ × IdAllocator
allocate s = allocate_from s s.free_ids

-- `Free`
unfoldable pub free : IdAllocator → ℕ → IdAllocator
free s id = record s { free_ids = s.free_ids ++ (id ∷ []) }
