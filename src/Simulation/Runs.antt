-- ===== src/Simulation/Runs.antt =====
-- What comes out of the simulator over a run of calls.
use rudp_network_engine.Prelude.{
  ℕ, zero, suc, ◌+◌, ◌-◌, ◌≡◌, refl, ◌∙◌, Bool, true, ◌||◌, List, [], ◌∷◌, ◌++◌, length, get_elem?,
  ltb, ◌==◌, if◌then◌else◌, arith, Bool-cases, inl, inr,
}
use rudp_network_engine.Channel.Sending.Ledger.{countp, countp-append}
use rudp_network_engine.Simulation.{
  PacketSimulationSettings, PacketSimulator, roll_permille, reconfigure, erase_at, picked,
  to_dispatch, release, process, is_empty, flush_stale,
}

module _ (P : Type 0) where
  -- A call of `Process`, with its own draws, of `FlushStale` or of `Reconfigure`.
  pub data Call : Type 0 where
    received : P → (ℕ → ℕ) → ℕ → ℕ → ℕ → Call
    flushed : ℕ → Call
    reconfigured : PacketSimulationSettings → Call

module _ {P : Type 0} where
  -- The datagrams that a call lets in, each as often as it is to be delivered.
  abbrev pub admitted : PacketSimulator P → Call P → List P
  admitted s (received p index drop_draw duplicate_draw now) =
      if roll_permille s.settings.drop_permille drop_draw
      then []
      else to_dispatch s.settings p duplicate_draw
  admitted s (flushed now) = []
  admitted s (reconfigured settings) = []

  abbrev pub call : PacketSimulator P → Call P → List P × PacketSimulator P
  call s (received p index drop_draw duplicate_draw now) =
      process index drop_draw duplicate_draw now s p
  call s (flushed now) = flush_stale now s
  call s (reconfigured settings) = ([], reconfigure s settings)

  abbrev pub run : PacketSimulator P → List (Call P) → List P × PacketSimulator P
  run s [] = ([], s)
  run s (c ∷ cs) =
      let first = call s c in let later = run first.1 cs in (first.0 ++ later.0, later.1)

  abbrev pub all_admitted : PacketSimulator P → List (Call P) → List P
  all_admitted s [] = []
  all_admitted s (c ∷ cs) = admitted s c ++ all_admitted (call s c).1 cs

  countp-picked :
      (q : P → Bool) (xs : List P) (i : ℕ)
      → countp q (picked (get_elem? xs i)) + countp q (erase_at xs i) ≡ countp q xs
  unfolding picked erase_at
  countp-picked q [] i = refl
  countp-picked q (x ∷ xs) zero = omega arith
  countp-picked q (x ∷ xs) (suc i) = omega (arith, countp-picked q xs i)

  countp-release :
      (q : P → Bool) (index : ℕ → ℕ) (s : PacketSimulator P)
      → countp q (release index s).0 + countp q (release index s).1.reorder_window
        ≡ countp q s.reorder_window
  unfolding release
  countp-release q index s =
      elim (Bool-cases (ltb (length s.reorder_window) s.settings.reorder_window_size)) [
        | inl t ↦ rw (t) (omega arith)
        | inr f ↦ rw (f) (countp-picked q s.reorder_window (index (length s.reorder_window - 1)))
      ]

  countp-call :
      (q : P → Bool) (s : PacketSimulator P) (c : Call P)
      → countp q (call s c).0 + countp q (call s c).1.reorder_window
        ≡ countp q s.reorder_window + countp q (admitted s c)
  unfolding process flush_stale reconfigure
  countp-call q s (received p index drop_draw duplicate_draw now) =
      elim (Bool-cases (roll_permille s.settings.drop_permille drop_draw)) [
        | inl t ↦ rw (t) (omega arith)
        | inr f ↦ elim (Bool-cases (s.settings.reorder_window_size == 0)) [
          | inl e ↦ rw (f) (rw (e) (omega arith))
          | inr e ↦
              let items = to_dispatch s.settings p duplicate_draw in
              let t = record s {
                last_window_activity = now;
                reorder_window = s.reorder_window ++ items;
              } in
              rw (f) (rw (e) (countp-release q index t ∙ countp-append q s.reorder_window items))
        ]
      ]
  countp-call q s (flushed now) =
      elim (Bool-cases (is_empty s.reorder_window || s.settings.reorder_window_size == 0)) [
        | inl t ↦ rw (t) (omega arith)
        | inr f ↦
            elim (Bool-cases (ltb (now - s.last_window_activity) s.settings.reorder_max_hold_ms)) [
              | inl t ↦ rw (f) (rw (t) (omega arith))
              | inr g ↦ rw (f) (rw (g) (omega arith))
            ]
      ]
  countp-call q s (reconfigured settings) = omega arith

  -- Over any run of calls of `Process`, `FlushStale` and `Reconfigure`, whatever the draws, and for any
  -- test on datagrams: those that came out and those in the window at the end that pass the test are,
  -- in number, those that were in the window and those that `Process` let in, with the copies it made.
  pub run-conserves :
      (q : P → Bool) (s : PacketSimulator P) (cs : List (Call P))
      → countp q (run s cs).0 + countp q (run s cs).1.reorder_window
        ≡ countp q s.reorder_window + countp q (all_admitted s cs)
  run-conserves q s [] = omega arith
  run-conserves q s (c ∷ cs) =
      let first = call s c in
      omega (
        arith,
        countp-append q first.0 (run first.1 cs).0,
        countp-append q (admitted s c) (all_admitted first.1 cs),
        countp-call q s c,
        run-conserves q first.1 cs,
      )

  -- The run has no call of `Reconfigure`.
  abbrev pub NoReconfigure : List (Call P) → Type 0
  NoReconfigure [] = Unit {0}
  NoReconfigure (received p index drop_draw duplicate_draw now ∷ cs) = NoReconfigure cs
  NoReconfigure (flushed now ∷ cs) = NoReconfigure cs
  NoReconfigure (reconfigured settings ∷ cs) = ⊥

  process-off :
      (index : ℕ → ℕ) (s : PacketSimulator P) (p : P) (drop_draw duplicate_draw now : ℕ)
      → s.settings.reorder_window_size ≡ 0
      → (process index drop_draw duplicate_draw now s p).1 ≡ s
  unfolding process
  process-off index s p drop_draw duplicate_draw now e =
      elim (Bool-cases (roll_permille s.settings.drop_permille drop_draw)) [
        | inl t ↦ rw (t) refl
        | inr f ↦ rw (f) (rw (e) refl)
      ]

  flush_stale-off :
      (s : PacketSimulator P) (now : ℕ)
      → s.settings.reorder_window_size ≡ 0
      → flush_stale now s ≡ ([], s)
  unfolding flush_stale
  flush_stale-off s now e =
      let off : (is_empty s.reorder_window || s.settings.reorder_window_size == 0) ≡ true =
        ground (arith, e) in
      rw (off) refl

  -- Once the size of the window is set to 0, what is left in the window stays there for the rest of a
  -- run without `Reconfigure`, whatever arrives and however much time goes by.
  pub run-stuck :
      (s : PacketSimulator P) (cs : List (Call P))
      → s.settings.reorder_window_size ≡ 0
      → NoReconfigure cs
      → (run s cs).1 ≡ s
  run-stuck s [] e h = refl
  run-stuck s (received p index drop_draw duplicate_draw now ∷ cs) e h =
      rw (process-off index s p drop_draw duplicate_draw now e) (run-stuck s cs e h)
  run-stuck s (flushed now ∷ cs) e h = rw (flush_stale-off s now e) (run-stuck s cs e h)
  run-stuck s (reconfigured settings ∷ cs) e h = elim h [ ]
