-- ===== src/Pending/Runs.antt =====
-- The pending connections over a run of datagrams and ticks.
use rudp_network_engine.Prelude.{
  ℕ, ◌+◌, ◌%◌, ◌^◌, ◌≤◌, ◌<◌, refl, Bool, true, false, List, [], ◌∷◌, length, arith,
}
use rudp_network_engine.Pending.{
  Remotes, find_connection, time_kill_event, arrived, connections_update,
}
use rudp_network_engine.Pending.Ops.{IsRemotes, time_kill_event-IsRemotes, arrived_found-IsRemotes}

module _ (A : Type 0) where
  -- A handshake packet of an address, or the tick of a second.
  pub data Op : Type 0 where
    arrival : ℕ → A → ℕ → ℕ → Op
    tick : Bool → ℕ → ℕ → ℕ → Op

module _ {A : Type 0} where
  abbrev pub step : Remotes A → Op A → Remotes A
  step s (arrival key address session_id now) = arrived key address session_id now s
  step s (tick is_server time_id now timeout) = connections_update is_server time_id now timeout s

  abbrev pub run : Remotes A → List (Op A) → Remotes A
  run s [] = s
  run s (op ∷ ops) = run (step s op) ops

  -- The driver ticks with indices below 60.
  abbrev pub AreTicks : List (Op A) → Type 0
  AreTicks [] = Unit {0}
  AreTicks (arrival key address session_id now ∷ ops) = AreTicks ops
  AreTicks (tick is_server time_id now timeout ∷ ops) = (time_id < 60) × AreTicks ops

  -- After a tick `ClientTimeId` is 59 again.
  ticked :
      (s : Remotes A)
      → IsRemotes s
      → IsRemotes
          (record s { client_time_id = (s.client_time_id + (s.client_time_id + 1) % 60) % 2 ^ 8 })
  ticked s v = record {
    maps = v.maps;
    last_time_id = omega (arith, v.last_time_id);
    empty = v.empty;
    held = v.held;
  }

  step-IsRemotes :
      (s : Remotes A) (op : Op A)
      → AreTicks (op ∷ [])
      → s.pending_client_ids.counter + 1 < 2 ^ 32
      → IsRemotes s
      → IsRemotes (step s op)
        × ((step s op).pending_client_ids.counter ≤ s.pending_client_ids.counter + 1)
  unfolding arrived connections_update
  step-IsRemotes s (arrival key address session_id now) h few v =
      arrived_found-IsRemotes key address session_id now s (find_connection key s.client_cache) few
        refl v
  step-IsRemotes s (tick true time_id now timeout) h few v =
      let killed = time_kill_event-IsRemotes time_id now timeout s h.0 v in
      (ticked (time_kill_event time_id now timeout s) killed.0, omega (arith, killed.1))
  step-IsRemotes s (tick false time_id now timeout) h few v = (ticked s v, omega arith)

  -- From a state where this holds, over any run of handshake packets and of ticks with indices
  -- below 60, where the counter of ids and the length of the run together stay below 2 ^ 32: no
  -- two pending connections hold the same id and none holds one that is free, `ClientTimeId` stays
  -- at 59, and all pending connections are in the last of the sixty maps.
  pub run-IsRemotes :
      (s : Remotes A) (ops : List (Op A))
      → IsRemotes s
      → AreTicks ops
      → s.pending_client_ids.counter + length ops < 2 ^ 32
      → IsRemotes (run s ops)
  run-IsRemotes s [] v h few = v
  run-IsRemotes s (arrival key address session_id now ∷ ops) v h few =
      let op = arrival key address session_id now in
      let next = step-IsRemotes s op tt (omega arith) v in
      run-IsRemotes (step s op) ops next.0 h (omega (arith, next.1))
  run-IsRemotes s (tick is_server time_id now timeout ∷ ops) v h few =
      let op = tick is_server time_id now timeout in
      let next = step-IsRemotes s op (h.0, tt) (omega arith) v in
      run-IsRemotes (step s op) ops next.0 h.1 (omega (arith, next.1))
