-- ===== src/Simulation.antt =====
-- Project/Network/src/simulation/PacketSimulator.h and PacketSimulator.cpp: a bad network, put between
-- the socket and the engine. A datagram is a type `P`. The draws of the generator and the clock's
-- reading, in milliseconds, are arguments of each call; the index that a call draws is a function of
-- the greatest one allowed.
pub mod Runs
mod Examples
use rudp_network_engine.Prelude.{
  ℕ, zero, suc, ◌+◌, ◌-◌, Bool, true, false, not, ◌&&◌, ◌||◌, List, [], ◌∷◌, ◌++◌, Option, none,
  some, length, get_elem?, ltb, ◌==◌, if◌then◌else◌,
}

-- `PacketSimulationSettings`
pub record PacketSimulationSettings : Type 0 where
  pub drop_permille : ℕ
  pub duplicate_permille : ℕ
  pub reorder_window_size : ℕ
  pub reorder_max_hold_ms : ℕ

module _ (P : Type 0) where
  -- The members of `PacketSimulator` that change, but for the generator.
  pub record PacketSimulator : Type 0 where
    pub settings : PacketSimulationSettings
    pub reorder_window : List P
    pub last_window_activity : ℕ

-- `RollPermille` with the draw of the distribution from 0 to 999.
unfoldable pub roll_permille : ℕ → ℕ → Bool
roll_permille permille draw = if permille == 0 then false else ltb draw permille

module _ {P : Type 0} where
  -- `Reconfigure`
  unfoldable pub reconfigure : PacketSimulator P → PacketSimulationSettings → PacketSimulator P
  reconfigure s settings = record s { settings = settings }

  -- `IsEnabled`
  unfoldable pub is_enabled : PacketSimulator P → Bool
  is_enabled s =
      ltb 0 s.settings.drop_permille
      || ltb 0 s.settings.duplicate_permille
      || ltb 0 s.settings.reorder_window_size

  -- `vector::erase` at an index.
  unfoldable pub erase_at : List P → ℕ → List P
  erase_at [] i = []
  erase_at (x ∷ xs) zero = xs
  erase_at (x ∷ xs) (suc i) = x ∷ erase_at xs i

  -- The element moved into `Result`.
  unfoldable pub picked : Option P → List P
  picked none = []
  picked (some x) = x ∷ []

  -- `ToDispatch`: the datagram, and its copy.
  unfoldable pub to_dispatch : PacketSimulationSettings → P → ℕ → List P
  to_dispatch settings received draw =
      received ∷ (if roll_permille settings.duplicate_permille draw then received ∷ [] else [])

  -- The part of `Process` after the window took the datagrams in.
  unfoldable pub release : (ℕ → ℕ) → PacketSimulator P → List P × PacketSimulator P
  release index s =
      if ltb (length s.reorder_window) s.settings.reorder_window_size
      then ([], s)
      else (let i = index (length s.reorder_window - 1) in
          (
            picked (get_elem? s.reorder_window i),
            record s { reorder_window = erase_at s.reorder_window i },
          ))

  -- `Process`, with the draws for dropping and for duplicating.
  unfoldable pub process : (ℕ → ℕ) → ℕ → ℕ → ℕ → PacketSimulator P → P → List P × PacketSimulator P
  process index drop_draw duplicate_draw now s received =
      if roll_permille s.settings.drop_permille drop_draw
      then ([], s)
      else (let items = to_dispatch s.settings received duplicate_draw in
          if s.settings.reorder_window_size == 0
          then (items, s)
          else release index
              (record s { last_window_activity = now; reorder_window = s.reorder_window ++ items }))

  -- `ShouldDropOutbound`
  unfoldable pub should_drop_outbound : PacketSimulator P → ℕ → Bool
  should_drop_outbound s draw = roll_permille s.settings.drop_permille draw

  unfoldable pub is_empty : List P → Bool
  is_empty [] = true
  is_empty (x ∷ xs) = false

  -- `FlushStale`, on a clock that does not run back.
  unfoldable pub flush_stale : ℕ → PacketSimulator P → List P × PacketSimulator P
  flush_stale now s =
      if is_empty s.reorder_window || s.settings.reorder_window_size == 0
      then ([], s)
      else (if ltb (now - s.last_window_activity) s.settings.reorder_max_hold_ms
          then ([], s)
          else (s.reorder_window, record s { reorder_window = [] }))
