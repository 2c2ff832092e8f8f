-- ===== src/Pending/Ops.antt =====
-- What holds of the pending connections after a datagram or a tick.
use rudp_network_engine.Prelude.{
  ℕ, zero, suc, ◌+◌, ◌^◌, ◌≤◌, ◌<◌, ◌≡◌, ◌≢◌, refl, ap, ◌∙◌, List, [], ◌∷◌, Option, none, some,
  length, length-set, get_or, set, arith, ℕ_discrete,
}
use rudp_network_engine.Ids.{IdAllocator, allocate, allocate_from}
use rudp_network_engine.Pending.{
  PendingRemoteConnection, ClientHashMap, Remotes, create_pending_client, find_in, change_in,
  change_first, find_connection, add_connection, kill_idle, time_kill_event, arrived_found,
}
use rudp_network_engine.Pending.Held.{
  HasDistinctIds, time_kill_event-HasDistinctIds, arrived_found-HasDistinctIds, free_all-ids,
}

allocate-counter : (s : IdAllocator) → (allocate s).1.counter ≤ s.counter + 1
unfolding allocate allocate_from
allocate-counter s = go s.free_ids
  where
    go : (free_ids : List ℕ) → (allocate_from s free_ids).1.counter ≤ s.counter + 1
    go [] = omega arith
    go (id ∷ rest) = omega arith

module _ {A : Type 0} where
  length-change_first :
      (f : PendingRemoteConnection A → PendingRemoteConnection A) (key : ℕ)
      (cache : List (ClientHashMap A))
      → length (change_first f key cache) ≡ length cache
  unfolding change_first
  length-change_first f key [] = refl
  length-change_first f key (bucket ∷ rest) =
      go (find_in key bucket) (length-change_first f key rest)
    where
      go :
          (o : Option (PendingRemoteConnection A))
          → length (change_first f key rest) ≡ length rest
          → length (elim o as (λ _. List (ClientHashMap A)) [
            | none ↦ bucket ∷ change_first f key rest
            | some p ↦ change_in f key bucket ∷ rest
          ])
            ≡ suc (length rest)
      go none later = ap suc later
      go (some p) later = refl

  get_or-set_ne :
      (cache : List (ClientHashMap A)) (t u : ℕ) (bucket : ClientHashMap A)
      → t ≢ u
      → get_or (set cache t bucket) u [] ≡ get_or cache u []
  get_or-set_ne [] t u bucket h = refl
  get_or-set_ne (b ∷ rest) zero zero bucket h = absurd (h refl)
  get_or-set_ne (b ∷ rest) zero (suc u) bucket h = refl
  get_or-set_ne (b ∷ rest) (suc t) zero bucket h = refl
  get_or-set_ne (b ∷ rest) (suc t) (suc u) bucket h =
      get_or-set_ne rest t u bucket (λ e. h (ap suc e))

  get_or-set_empty :
      (cache : List (ClientHashMap A)) (t u : ℕ)
      → get_or cache u [] ≡ []
      → get_or (set cache t []) u [] ≡ []
  get_or-set_empty [] t u h = refl
  get_or-set_empty (b ∷ rest) zero zero h = refl
  get_or-set_empty (b ∷ rest) zero (suc u) h = h
  get_or-set_empty (b ∷ rest) (suc t) zero h = h
  get_or-set_empty (b ∷ rest) (suc t) (suc u) h = get_or-set_empty rest t u h

  -- A map without entries stays without them.
  change_first-empty :
      (f : PendingRemoteConnection A → PendingRemoteConnection A) (key u : ℕ)
      (cache : List (ClientHashMap A))
      → get_or cache u [] ≡ []
      → get_or (change_first f key cache) u [] ≡ []
  unfolding change_first change_in
  change_first-empty f key u [] h = refl
  change_first-empty f key zero (bucket ∷ rest) h = go (find_in key bucket)
    where
      go :
          (o : Option (PendingRemoteConnection A))
          → get_or
              (elim o as (λ _. List (ClientHashMap A)) [
                | none ↦ bucket ∷ change_first f key rest
                | some p ↦ change_in f key bucket ∷ rest
              ])
              0
              []
            ≡ []
      go none = h
      go (some p) = ap (change_in f key) h
  change_first-empty f key (suc u) (bucket ∷ rest) h =
      go (find_in key bucket) (change_first-empty f key u rest h)
    where
      go :
          (o : Option (PendingRemoteConnection A))
          → get_or (change_first f key rest) u [] ≡ []
          → get_or
              (elim o as (λ _. List (ClientHashMap A)) [
                | none ↦ bucket ∷ change_first f key rest
                | some p ↦ change_in f key bucket ∷ rest
              ])
              (suc u)
              []
            ≡ []
      go none later = later
      go (some p) later = h

  -- The sixty maps, of which only the last is used, since `ClientTimeId` stays at 59.
  pub record IsRemotes (s : Remotes A) : Type 0 where
    pub maps : length s.client_cache ≡ 60
    pub last_time_id : s.client_time_id ≡ 59
    pub empty : (t : ℕ) → t < 59 → get_or s.client_cache t [] ≡ []
    pub held : HasDistinctIds s

  pub time_kill_event-IsRemotes :
      (time_id now timeout : ℕ) (s : Remotes A)
      → time_id < 60
      → IsRemotes s
      → IsRemotes (time_kill_event time_id now timeout s)
        × ((time_kill_event time_id now timeout s).pending_client_ids.counter
            ≡ s.pending_client_ids.counter)
  time_kill_event-IsRemotes time_id now timeout s lt v =
      let held =
        time_kill_event-HasDistinctIds time_id now timeout s (omega (arith, v.maps)) v.held in
      let killed = kill_idle now timeout (get_or s.client_cache time_id []) in
      unfold time_kill_event in
      (
        record {
          maps = length-set s.client_cache time_id killed.1 ∙ v.maps;
          last_time_id = v.last_time_id;
          empty = λ t below. elim (ℕ_discrete time_id t) [
            | yes same ↦
                let nothing : killed.1 ≡ [] =
                  unfold kill_idle in
                  ap (λ b. (kill_idle now timeout b).1)
                    (ap (λ k. get_or s.client_cache k []) same ∙ v.empty t below) in
                ap (λ b. get_or (set s.client_cache time_id b) t []) nothing
                ∙ get_or-set_empty s.client_cache time_id t (v.empty t below)
            | no other ↦ get_or-set_ne s.client_cache time_id t killed.1 other ∙ v.empty t below
          ];
          held = held;
        },
        (free_all-ids 0 s.pending_client_ids killed.0).1,
      )

  pub arrived_found-IsRemotes :
      (key : ℕ) (address : A) (session_id now : ℕ) (s : Remotes A)
      (o : Option (PendingRemoteConnection A))
      → s.pending_client_ids.counter + 1 < 2 ^ 32
      → find_connection key s.client_cache ≡ o
      → IsRemotes s
      → IsRemotes (arrived_found key address session_id now s o)
        × ((arrived_found key address session_id now s o).pending_client_ids.counter
            ≤ s.pending_client_ids.counter + 1)
  unfolding arrived_found add_connection create_pending_client
  arrived_found-IsRemotes key address session_id now s o few e v =
      let held =
        arrived_found-HasDistinctIds key address session_id now s o
          (omega (arith, v.maps, v.last_time_id)) few e v.held in
      go o held
    where
      go :
          (o : Option (PendingRemoteConnection A))
          → HasDistinctIds (arrived_found key address session_id now s o)
          → IsRemotes (arrived_found key address session_id now s o)
            × ((arrived_found key address session_id now s o).pending_client_ids.counter
                ≤ s.pending_client_ids.counter + 1)
      go (some p) held = (
        record {
          maps = length-change_first _ key s.client_cache ∙ v.maps;
          last_time_id = v.last_time_id;
          empty = λ t below. change_first-empty _ key t s.client_cache (v.empty t below);
          held = held;
        },
        omega arith,
      )
      go none held = (
        record {
          maps = length-set s.client_cache s.client_time_id _ ∙ v.maps;
          last_time_id = v.last_time_id;
          empty = λ t below.
              get_or-set_ne s.client_cache s.client_time_id t _
                (λ same. omega (arith, same, v.last_time_id))
              ∙ v.empty t below;
          held = held;
        },
        allocate-counter s.pending_client_ids,
      )
