-- ===== src/Channel/Building/Pumping.antt =====
-- The messages come out of `Pump` in the bunches, in order, as long as each fits into a bunch.
use mathlib.Core.List.{append_assoc, append-nil}
use rudp_network_engine.Prelude.{
  ℕ, zero, suc, ◌+◌, ◌-◌, ◌%◌, ◌^◌, ◌≤◌, ◌<◌, ◌≡◌, refl, sym, ap, ◌∙◌, subst, Bool, true, false,
  ◌&&◌, List, [], ◌∷◌, ◌++◌, length, ltb, leb, if◌then◌else◌, arith, Bool-cases, ◌⊎◌, inl, inr,
}
use rudp_network_engine.Channel.Building.{
  OutReadyBunch, Builder, BunchPolicy, reset_active, is_full, try_insert, seal_and_push, seal,
  insert, take_message, take_messages, has_active, flush_late, flush_active, pump,
}

module _ {M : Type 0} where
  -- The messages of the bunches, in order.
  abbrev pub bunched : List (OutReadyBunch M) → List M
  bunched [] = []
  bunched (b ∷ bs) = b.messages ++ bunched bs

  bunched-append : (xs ys : List (OutReadyBunch M)) → bunched (xs ++ ys) ≡ bunched xs ++ bunched ys
  bunched-append [] ys = refl
  bunched-append (x ∷ xs) ys =
      rw (bunched-append xs ys, append_assoc x.messages (bunched xs) (bunched ys))

  bunched-last :
      (q : List (OutReadyBunch M)) (b : OutReadyBunch M)
      → bunched (q ++ (b ∷ [])) ++ [] ≡ bunched q ++ b.messages ++ []
  bunched-last q b =
      ap (λ z. z ++ [])
        (bunched-append q (b ∷ []) ∙ ap (λ z. bunched q ++ z) (append-nil b.messages))

  -- The messages that are in a bunch or in the one that is being filled.
  abbrev pub contents : Builder M → List M
  contents s = bunched s.queued_out_bunch ++ s.active_msgs

  -- What no step of `Pump` but the taking of messages changes.
  pub record Kept (added : List M) (limit : ℕ) (s t : Builder M) : Type 0 where
    pub holds : contents t ≡ contents s ++ added
    fits : t.active_payload ≤ limit
    waits : t.queued_message ≡ s.queued_message

  Kept-append :
      {xs ys : List M} {limit : ℕ} (s t u : Builder M)
      → Kept xs limit s t
      → Kept ys limit t u
      → Kept (xs ++ ys) limit s u
  Kept-append {xs} {ys} s t u a b = record {
    holds = b.holds ∙ ap (λ z. z ++ ys) a.holds ∙ append_assoc (contents s) xs ys;
    fits = b.fits;
    waits = b.waits ∙ a.waits;
  }

module _ {M : Type 0} (size : M → ℕ) (policy : BunchPolicy) (clock : ℕ → ℕ) where
  abbrev pub AllFit : List M → Type 0
  AllFit [] = Unit {0}
  AllFit (m ∷ ms) = (size m ≤ policy.max_bunch_payload) × AllFit ms

  -- A policy under which a bunch has room for a message.
  pub record IsPolicy : Type 0 where
    pub some_message : 0 < policy.max_msgs_per_bunch
    pub some_payload : policy.max_bunch_payload < 2 ^ 31

  pub Kept-seal : (s : Builder M) → Kept [] policy.max_bunch_payload s (seal size policy clock s)
  unfolding seal reset_active seal_and_push
  Kept-seal s = record {
    holds = bunched-last s.queued_out_bunch _;
    fits = omega arith;
    waits = refl;
  }

  seal-active : (s : Builder M) → (seal size policy clock s).active_msgs ≡ []
  unfolding seal reset_active
  seal-active s = refl

  pub seal-payload : (s : Builder M) → (seal size policy clock s).active_payload ≡ 0
  unfolding seal reset_active
  seal-payload s = refl

  -- The message goes in where there is room for it.
  Kept-added :
      (s : Builder M) (m : M)
      → length s.active_msgs < policy.max_msgs_per_bunch
      → s.active_payload + size m ≤ policy.max_bunch_payload
      → IsPolicy
      → Kept (m ∷ []) policy.max_bunch_payload s (try_insert size policy clock s m).1
  unfolding try_insert
  Kept-added s m h k p =
      let e : leb policy.max_msgs_per_bunch (length s.active_msgs) ≡ false = ground (arith, h) in
      let e' : ltb policy.max_bunch_payload ((s.active_payload + size m) % 2 ^ 32) ≡ false =
        ground (arith, k, p.some_payload) in
      rw (e, e')
        record {
          holds = sym (append_assoc (bunched s.queued_out_bunch) s.active_msgs (m ∷ []));
          fits = omega (arith, k, p.some_payload);
          waits = refl;
        }

  try_insert_cases :
      (s : Builder M) (m : M)
      → size m ≤ policy.max_bunch_payload
      → s.active_payload ≤ policy.max_bunch_payload
      → IsPolicy
      → ((try_insert size policy clock s m).0 ≡ false)
        ⊎ ((length s.active_msgs < policy.max_msgs_per_bunch)
            × (s.active_payload + size m ≤ policy.max_bunch_payload)
            × ((try_insert size policy clock s m).0 ≡ true))
  unfolding try_insert
  try_insert_cases s m h k p =
      elim (Bool-cases (leb policy.max_msgs_per_bunch (length s.active_msgs))) [
        | inl t ↦ inl (rw (t) refl)
        | inr f ↦
            elim (Bool-cases
              (ltb policy.max_bunch_payload ((s.active_payload + size m) % 2 ^ 32))) [
                | inl t ↦ inl (rw (f, t) refl)
                | inr g ↦
                    inr (ground (arith, f), ground (arith, g, h, k, p.some_payload), rw (f, g) refl)
              ]
      ]

  Kept-insert :
      (s : Builder M) (m : M)
      → size m ≤ policy.max_bunch_payload
      → s.active_payload ≤ policy.max_bunch_payload
      → IsPolicy
      → Kept (m ∷ []) policy.max_bunch_payload s (insert size policy clock s m)
  unfolding insert
  Kept-insert s m h k p = elim (try_insert_cases s m h k p) [
    | inl f ↦
        let t = seal size policy clock s in
        let again =
          Kept-added t m (omega (arith, p.some_message, ap (λ z. length z) (seal-active s)))
            (omega (arith, h, seal-payload s)) p in
        rw (f) (Kept-append s t (try_insert size policy clock t m).1 (Kept-seal s) again)
    | inr r ↦ rw (r.2) (Kept-added s m r.0 r.1 p)
  ]

  Kept-if :
      {added : List M} {limit : ℕ} (b : Bool) (s t u : Builder M)
      → Kept added limit s t
      → Kept added limit s u
      → Kept added limit s (if b then t else u)
  Kept-if true s t u h k = h
  Kept-if false s t u h k = k

  Kept-take_message :
      (s : Builder M) (m : M)
      → size m ≤ policy.max_bunch_payload
      → s.active_payload ≤ policy.max_bunch_payload
      → IsPolicy
      → Kept (m ∷ []) policy.max_bunch_payload s (take_message size policy clock s m)
  unfolding take_message
  Kept-take_message s m h k p =
      let t = insert size policy clock s m in
      let one = Kept-insert s m h k p in
      Kept-if (is_full size policy clock t) s (seal size policy clock t) t
        (Kept-append s t (seal size policy clock t) one (Kept-seal t)) one

  -- All that was queued is taken.
  record Taken (queue : List M) (s t : Builder M) : Type 0 where
    pub holds : contents t ≡ contents s ++ queue
    fits : t.active_payload ≤ policy.max_bunch_payload
    waits : t.queued_message ≡ []

  take_messages-Taken :
      (left : ℕ) (s : Builder M) (queue : List M)
      → length queue ≤ left
      → AllFit queue
      → s.active_payload ≤ policy.max_bunch_payload
      → IsPolicy
      → Taken queue s (take_messages size policy clock left s queue)
  unfolding take_messages
  take_messages-Taken zero s [] h a k p = record {
    holds = sym (append-nil (contents s));
    fits = k;
    waits = refl;
  }
  take_messages-Taken zero s (m ∷ queue) h a k p = absurd (omega arith)
  take_messages-Taken (suc left) s [] h a k p = record {
    holds = sym (append-nil (contents s));
    fits = k;
    waits = refl;
  }
  take_messages-Taken (suc left) s (m ∷ queue) h a k p =
      let one = Kept-take_message s m a.0 k p in
      let rest =
        take_messages-Taken left (take_message size policy clock s m) queue (omega arith) a.1
          one.fits p in
      record {
        holds =
            rest.holds ∙ ap (λ z. z ++ queue) one.holds ∙ append_assoc (contents s) (m ∷ []) queue;
        fits = rest.fits;
        waits = rest.waits;
      }

  Kept-flush_late :
      (s : Builder M)
      → s.active_payload ≤ policy.max_bunch_payload
      → Kept [] policy.max_bunch_payload s (flush_late size policy clock s)
  unfolding flush_late
  Kept-flush_late s k =
      let same : Kept [] policy.max_bunch_payload s s = record {
        holds = sym (append-nil (contents s));
        fits = k;
        waits = refl;
      } in
      let t : Builder M = record s { readings = s.readings + 1 } in
      let read : Kept [] policy.max_bunch_payload s t = record {
        holds = sym (append-nil (contents s));
        fits = k;
        waits = refl;
      } in
      Kept-if (ltb 0 policy.max_coalesce_us && has_active size policy clock s) s _ s
        (Kept-if
          (leb policy.max_coalesce_us ((clock s.readings + 2 ^ 64 - s.last_emit_us) % 2 ^ 64)) s
          (seal size policy clock t) t
          (Kept-append s t (seal size policy clock t) read (Kept-seal t)) read)
        same

  -- A builder between two calls: what it fills fits, and before the first call there is nothing.
  pub record IsBuilder (s : Builder M) : Type 0 where
    pub fits : s.active_payload ≤ policy.max_bunch_payload
    pub begun : (s.active_has_init ≡ true) ⊎ (s.active_msgs ≡ [])

  -- All of `all` is in bunches.
  record Flushed (all : List M) (t : Builder M) : Type 0 where
    out : bunched t.queued_out_bunch ≡ all
    empty : t.active_msgs ≡ []

  empty-active :
      (s : Builder M) (xs : List M)
      → s.active_msgs ≡ xs
      → (s.active_msgs ≡ []) ⊎ (has_active size policy clock s ≡ true)
  empty-active s [] e = inl e
  empty-active s (x ∷ xs) e = inr (rw (e) refl)

  seal-Flushed : (s : Builder M) → Flushed (contents s) (seal size policy clock s)
  unfolding seal reset_active seal_and_push
  seal-Flushed s = record {
    out =
        bunched-append s.queued_out_bunch (_ ∷ [])
        ∙ ap (λ z. bunched s.queued_out_bunch ++ z) (append-nil s.active_msgs);
    empty = refl;
  }

  flush_active-Flushed :
      (s : Builder M) → Flushed (contents s) (flush_active size policy clock true s)
  unfolding flush_active
  flush_active-Flushed s = elim (empty-active s s.active_msgs refl) [
    | inl e ↦ rw (e) record { out = sym (append-nil (bunched s.queued_out_bunch)); empty = refl }
    | inr t ↦ rw (t) (seal-Flushed s)
  ]

  flush-if :
      (b : Bool) (s : Builder M)
      → (if b then seal size policy clock s else s).queued_message ≡ s.queued_message
  flush-if true s = (Kept-seal s).waits
  flush-if false s = refl

  flush_active-queued :
      (s : Builder M) → (flush_active size policy clock true s).queued_message ≡ s.queued_message
  unfolding flush_active
  flush_active-queued s = flush-if (has_active size policy clock s) s

  -- The start of `Pump`.
  Kept-begun :
      (s : Builder M)
      → IsBuilder s
      → Kept [] policy.max_bunch_payload s
          (if s.active_has_init then s else reset_active size policy clock s)
  unfolding reset_active
  Kept-begun s v =
      let same : Kept [] policy.max_bunch_payload s s = record {
        holds = sym (append-nil (contents s));
        fits = v.fits;
        waits = refl;
      } in
      elim v.begun [
        | inl e ↦
            subst
              (λ b.
                Kept [] policy.max_bunch_payload s
                  (if b then s else reset_active size policy clock s))
              (sym e) same
        | inr e ↦ Kept-if s.active_has_init s s (reset_active size policy clock s) same record {
          holds = rw (e) (sym (append-nil (bunched s.queued_out_bunch ++ [])));
          fits = omega arith;
          waits = refl;
        }
      ]

  -- Where each message that waits fits into a bunch and the batch is large enough, `Pump` with the flush
  -- at its end puts all the messages into bunches, those that waited after those begun before, in
  -- order, and nothing is left.
  pub pump-bunched :
      (batch_limit : ℕ) (s : Builder M)
      → IsPolicy
      → IsBuilder s
      → AllFit s.queued_message
      → length s.queued_message ≤ batch_limit
      → let t = pump size policy clock batch_limit true s in
        bunched t.queued_out_bunch ≡ contents s ++ s.queued_message
        × t.active_msgs ≡ []
        × t.queued_message ≡ []
  unfolding pump
  pump-bunched batch_limit s p v a h =
      let t₀ = if s.active_has_init then s else reset_active size policy clock s in
      let t₁ = take_messages size policy clock batch_limit t₀ t₀.queued_message in
      let t₂ = flush_late size policy clock t₁ in
      let begun = Kept-begun s v in
      let taken =
        take_messages-Taken batch_limit t₀ t₀.queued_message
          (omega (arith, h, ap (λ z. length z) begun.waits))
          (subst (λ z. AllFit z) (sym begun.waits) a) begun.fits p in
      let late = Kept-flush_late t₁ taken.fits in
      let last = flush_active-Flushed t₂ in
      (
        last.out
            ∙ late.holds
            ∙ append-nil (contents t₁)
            ∙ taken.holds
            ∙ ap (λ z. z ++ t₀.queued_message) (begun.holds ∙ append-nil (contents s))
            ∙ ap (λ z. contents s ++ z) begun.waits,
        last.empty,
        flush_active-queued t₂ ∙ late.waits ∙ taken.waits,
      )
