-- ===== src/Pending/Held.antt =====
-- The ids of the pending connections.
use rudp_network_engine.Prelude.{
  ℕ, zero, suc, ◌+◌, ◌-◌, ◌^◌, ◌<◌, ◌≡◌, refl, ap, List, [], ◌∷◌, ◌++◌, Option, none, some, length,
  get_or, set, leb, ◌==◌, arith, Bool-cases, inl, inr,
}
use rudp_network_engine.Ids.{IdAllocator, allocate, free}
use rudp_network_engine.Ids.Distinct.{count, count-append, IsFor, allocate-IsFor}
use rudp_network_engine.Pending.{
  PendingRemoteConnection, ClientHashMap, Remotes, create_pending_client, increase_handshake_count,
  touch, find_in, insert_new, insert, change_in, first_found, find_connection, add_connection,
  change_first, kill_idle, free_all, time_kill_event, arrived_found,
}

module _ {A : Type 0} where
  abbrev pub bucket_ids : ClientHashMap A → List ℕ
  bucket_ids [] = []
  bucket_ids (e ∷ rest) = e.1.client_id ∷ bucket_ids rest

  -- The ids that pending connections hold.
  abbrev pub ids : List (ClientHashMap A) → List ℕ
  ids [] = []
  ids (bucket ∷ rest) = bucket_ids bucket ++ ids rest

  ids-set :
      (n : ℕ) (cache : List (ClientHashMap A)) (t : ℕ) (bucket : ClientHashMap A)
      → t < length cache
      → count n (ids (set cache t bucket)) + count n (bucket_ids (get_or cache t []))
        ≡ count n (ids cache) + count n (bucket_ids bucket)
  ids-set n [] t bucket h = elim h [ ]
  ids-set n (b ∷ rest) zero bucket h = omega (
    arith,
    count-append n (bucket_ids bucket) (ids rest),
    count-append n (bucket_ids b) (ids rest),
  )
  ids-set n (b ∷ rest) (suc t) bucket h = omega (
    arith,
    count-append n (bucket_ids b) (ids (set rest t bucket)),
    count-append n (bucket_ids b) (ids rest),
    ids-set n rest t bucket (omega arith),
  )

  kill_idle-ids :
      (n now timeout : ℕ) (bucket : ClientHashMap A)
      → count n (kill_idle now timeout bucket).0
          + count n (bucket_ids (kill_idle now timeout bucket).1)
        ≡ count n (bucket_ids bucket)
  unfolding kill_idle
  kill_idle-ids n now timeout [] = refl
  kill_idle-ids n now timeout (e ∷ rest) =
      elim (Bool-cases (leb timeout (now - e.1.last_activity_time))) [
        | inl t ↦ rw (t) (omega (arith, kill_idle-ids n now timeout rest))
        | inr f ↦ rw (f) (omega (arith, kill_idle-ids n now timeout rest))
      ]

  change_in-ids :
      (f : PendingRemoteConnection A → PendingRemoteConnection A) (key : ℕ)
      (bucket : ClientHashMap A)
      → ((p : PendingRemoteConnection A) → (f p).client_id ≡ p.client_id)
      → bucket_ids (change_in f key bucket) ≡ bucket_ids bucket
  unfolding change_in
  change_in-ids f key [] h = refl
  change_in-ids f key (e ∷ rest) h = elim (Bool-cases (e.0 == key)) [
    | inl t ↦ rw (t) (ap (λ i. i ∷ bucket_ids rest) (h e.1))
    | inr t ↦ rw (t) (ap (λ is. e.1.client_id ∷ is) (change_in-ids f key rest h))
  ]

  change_first-ids :
      (f : PendingRemoteConnection A → PendingRemoteConnection A) (key : ℕ)
      (cache : List (ClientHashMap A))
      → ((p : PendingRemoteConnection A) → (f p).client_id ≡ p.client_id)
      → ids (change_first f key cache) ≡ ids cache
  unfolding change_first
  change_first-ids f key [] h = refl
  change_first-ids f key (bucket ∷ rest) h = go (find_in key bucket) (change_first-ids f key rest h)
    where
      go :
          (o : Option (PendingRemoteConnection A))
          → ids (change_first f key rest) ≡ ids rest
          → ids (elim o as (λ _. List (ClientHashMap A)) [
            | none ↦ bucket ∷ change_first f key rest
            | some p ↦ change_in f key bucket ∷ rest
          ])
            ≡ ids (bucket ∷ rest)
      go none later = ap (λ is. bucket_ids bucket ++ is) later
      go (some p) later = ap (λ is. is ++ ids rest) (change_in-ids f key bucket h)

  find_connection-get :
      (key t : ℕ) (cache : List (ClientHashMap A))
      → find_connection key cache ≡ none
      → find_in key (get_or cache t []) ≡ none
  unfolding find_connection find_in
  find_connection-get key t [] e = refl
  find_connection-get key zero (bucket ∷ rest) e = go (find_in key bucket) e
    where
      go :
          (o : Option (PendingRemoteConnection A))
          → first_found o (find_connection key rest) ≡ none
          → o ≡ none
      go none e = refl
      go (some p) e = e
  find_connection-get key (suc t) (bucket ∷ rest) e =
      find_connection-get key t rest (go (find_in key bucket) e)
    where
      go :
          (o : Option (PendingRemoteConnection A))
          → first_found o (find_connection key rest) ≡ none
          → find_connection key rest ≡ none
      go none e = e
      go (some p) e = cc e

pub free_all-ids :
    (n : ℕ) (s : IdAllocator) (freed : List ℕ)
    → (count n (free_all s freed).free_ids ≡ count n s.free_ids + count n freed)
      × ((free_all s freed).counter ≡ s.counter)
unfolding free_all free
free_all-ids n s [] = (omega arith, refl)
free_all-ids n s (id ∷ rest) =
    let later = free_all-ids n (free s id) rest in
    (omega (arith, later.0, count-append n s.free_ids (id ∷ [])), later.1)

module _ {A : Type 0} where
  -- The ids that the pending connections hold and those that are free are all different.
  abbrev pub HasDistinctIds : Remotes A → Type 0
  HasDistinctIds s = IsFor s.pending_client_ids (ids s.client_cache)

  -- Ids may change places as long as each occurs as often.
  HasDistinctIds-moved :
      (s t : Remotes A)
      → HasDistinctIds s
      → t.pending_client_ids.counter ≡ s.pending_client_ids.counter
      → ((n : ℕ)
          → count n t.pending_client_ids.free_ids + count n (ids t.client_cache)
            ≡ count n s.pending_client_ids.free_ids + count n (ids s.client_cache))
      → HasDistinctIds t
  HasDistinctIds-moved s t v e h = record {
    distinct = λ n. omega (arith, h n, v.distinct n);
    below = λ n k. omega (arith, h n, v.below n (omega (arith, e)));
  }

  pub time_kill_event-HasDistinctIds :
      (time_id now timeout : ℕ) (s : Remotes A)
      → time_id < length s.client_cache
      → HasDistinctIds s
      → HasDistinctIds (time_kill_event time_id now timeout s)
  unfolding time_kill_event
  time_kill_event-HasDistinctIds time_id now timeout s lt v =
      let bucket = get_or s.client_cache time_id [] in
      let killed = kill_idle now timeout bucket in
      HasDistinctIds-moved s (time_kill_event time_id now timeout s) v
        (free_all-ids 0 s.pending_client_ids killed.0).1
        (λ n. omega (
          arith,
          (free_all-ids n s.pending_client_ids killed.0).0,
          ids-set n s.client_cache time_id killed.1 lt,
          kill_idle-ids n now timeout bucket,
        ))

  pub arrived_found-HasDistinctIds :
      (key : ℕ) (address : A) (session_id now : ℕ) (s : Remotes A)
      (o : Option (PendingRemoteConnection A))
      → s.client_time_id < length s.client_cache
      → s.pending_client_ids.counter + 1 < 2 ^ 32
      → find_connection key s.client_cache ≡ o
      → HasDistinctIds s
      → HasDistinctIds (arrived_found key address session_id now s o)
  unfolding arrived_found add_connection insert insert_new create_pending_client touch
      increase_handshake_count
  arrived_found-HasDistinctIds key address session_id now s (some p) lt few e v =
      rw
        (change_first-ids (λ q. touch now (increase_handshake_count 1 q)) key s.client_cache
          (λ q. refl))
        v
  arrived_found-HasDistinctIds key address session_id now s none lt few e v =
      let given = allocate s.pending_client_ids in
      let a = allocate-IsFor s.pending_client_ids (ids s.client_cache) v few in
      let t = s.client_time_id in
      let bucket = get_or s.client_cache t [] in
      let p = touch now (create_pending_client now session_id given.0 address t) in
      let added = λ (n : ℕ). ids-set n s.client_cache t ((key, p) ∷ bucket) lt in
      rw (find_connection-get key t s.client_cache e) (record {
        distinct = λ n. omega (arith, a.1.distinct n, added n);
        below = λ n k. omega (arith, a.1.below n k, added n);
      })
