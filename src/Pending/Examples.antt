-- ===== src/Pending/Examples.antt =====
-- A run of the pending connections, and their theorem at that run. An address is a number.
use rudp_network_engine.Prelude.{
  ℕ, zero, suc, ◌≡◌, refl, List, [], ◌∷◌, get_or, replicate, true, arith,
}
use rudp_network_engine.Pending.{Remotes, ClientHashMap}
use rudp_network_engine.Pending.Ops.{IsRemotes}
use rudp_network_engine.Pending.Runs.{Op, arrival, tick, run, run-IsRemotes}

abbrev fresh : Remotes ℕ
fresh = record {
  client_cache = replicate 60 [];
  pending_client_ids = record { counter = 0; free_ids = [] };
  client_time_id = 59;
}

replicate-empty : (n t : ℕ) → get_or (replicate {A = ClientHashMap ℕ} n []) t [] ≡ []
replicate-empty zero t = refl
replicate-empty (suc n) zero = refl
replicate-empty (suc n) (suc t) = replicate-empty n t

fresh-IsRemotes : IsRemotes fresh
fresh-IsRemotes = record {
  maps = refl;
  last_time_id = refl;
  empty = λ t below. replicate-empty 60 t;
  held = record { distinct = λ n. omega arith; below = λ n k. refl };
}

-- Two addresses, a second packet of the first, and the ticks of a second.
abbrev ops : List (Op ℕ)
ops =
    arrival 11 1 0 5
    ∷ arrival 22 2 0 6
    ∷ tick true 58 10 100
    ∷ arrival 11 1 0 20
    ∷ tick true 59 200 185
    ∷ []

run-IsRemotes_example : IsRemotes (run fresh ops)
run-IsRemotes_example =
    run-IsRemotes fresh ops fresh-IsRemotes (omega arith, (omega arith, tt)) (omega arith)
