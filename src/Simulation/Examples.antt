-- ===== src/Simulation/Examples.antt =====
-- Runs of the simulator on small inputs, and its theorems at those inputs.
use rudp_network_engine.Prelude.{ℕ, ◌+◌, ◌≡◌, refl, [], ◌∷◌, List, ◌==◌}
use rudp_network_engine.Channel.Sending.Ledger.{countp}
use rudp_network_engine.Simulation
use rudp_network_engine.Simulation.{
  PacketSimulationSettings, PacketSimulator, roll_permille, to_dispatch, release, process, erase_at,
  picked, reconfigure,
}
use rudp_network_engine.Simulation.Runs.{
  Call, received, flushed, run, all_admitted, run-conserves, run-stuck,
}

abbrev some_settings : PacketSimulationSettings
some_settings = record {
  drop_permille = 100;
  duplicate_permille = 100;
  reorder_window_size = 2;
  reorder_max_hold_ms = 50;
}

-- A window with one datagram, 7.
abbrev simulator : PacketSimulator ℕ
simulator = record { settings = some_settings; reorder_window = 7 ∷ []; last_window_activity = 0 }

-- Datagram 8 is doubled, datagram 9 is dropped; datagram 6 draws the last place.
abbrev calls : List (Call ℕ)
calls =
    received 8 (λ n. 0) 500 50 10
    ∷ received 9 (λ n. 0) 50 500 20
    ∷ received 6 (λ n. n) 500 500 30
    ∷ flushed 90
    ∷ []

calls_deliver : (run simulator calls).0 ≡ 7 ∷ 6 ∷ 8 ∷ 8 ∷ []
unfolding process release roll_permille to_dispatch erase_at picked Simulation.flush_stale
    Simulation.is_empty
calls_deliver = refl

run-conserves_example :
    countp (λ n. n == 8) (run simulator calls).0
      + countp (λ n. n == 8) (run simulator calls).1.reorder_window
    ≡ countp (λ n. n == 8) simulator.reorder_window
      + countp (λ n. n == 8) (all_admitted simulator calls)
run-conserves_example = run-conserves (λ n. n == 8) simulator calls

abbrev switched_off : PacketSimulator ℕ
switched_off = record simulator { settings = record some_settings { reorder_window_size = 0 } }

run-stuck_example : (run switched_off calls).1 ≡ switched_off
run-stuck_example = run-stuck switched_off calls refl tt
