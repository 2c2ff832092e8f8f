-- ===== src/Connection/Notified/Told.antt =====
-- What a connection is told of its packets reaches the right channels, and never out of step.
use rudp_network_engine.Prelude.{
  ℕ, zero, suc, ◌<◌, ◌≡◌, refl, some, Option, List, [], ◌∷◌, arith, length, get_elem?, set,
  get_elem?-set_self, get_elem?-set_ne, ◌==◌, ◌∙◌, subst, ℕ_discrete, Bool-cases, inl, inr,
}
use rudp_network_engine.Channel.Record.Groups.{called}
use rudp_network_engine.Channel.Sending.{SendState}
use rudp_network_engine.Connection.{NetChannel}
use rudp_network_engine.Connection.Notified.{settle_at, settle_channels}

module _ {B : Type 0} where
  -- The channel of this index is there.
  abbrev pub IsThere : List (Option (NetChannel B)) → ℕ → Type 0
  IsThere channels index = (ch : NetChannel B) × (get_elem? channels index ≡ some (some ch))

  abbrev pub AreThere : List (Option (NetChannel B)) → List ℕ → Type 0
  AreThere channels [] = Unit {0}
  AreThere channels (index ∷ rest) = IsThere channels index × AreThere channels rest

  -- The same channels are there.
  abbrev pub SameThere : List (Option (NetChannel B)) → List (Option (NetChannel B)) → Type 0
  SameThere channels others = (index : ℕ) → IsThere channels index → IsThere others index

  pub AreThere-same :
      (channels others : List (Option (NetChannel B))) (cs : List ℕ)
      → SameThere channels others
      → AreThere channels cs
      → AreThere others cs
  AreThere-same channels others [] h k = tt
  AreThere-same channels others (c ∷ cs) h k = (h c k.0, AreThere-same channels others cs h k.1)

  pub AreThere-called :
      (channels : List (Option (NetChannel B))) (previous : ℕ) (cs : List ℕ)
      → AreThere channels cs
      → AreThere channels (called previous cs)
  AreThere-called channels previous [] h = tt
  AreThere-called channels previous (c ∷ cs) h = elim (Bool-cases (c == previous)) [
    | inl e ↦ rw (e) (AreThere-called channels c cs h.1)
    | inr e ↦ rw (e) (h.0, AreThere-called channels c cs h.1)
  ]

  get_elem?-below :
      (channels : List (Option (NetChannel B))) (i : ℕ) {o : Option (NetChannel B)}
      → get_elem? channels i ≡ some o
      → i < length channels
  get_elem?-below [] i e = cc
  get_elem?-below (x ∷ xs) zero e = omega arith
  get_elem?-below (x ∷ xs) (suc i) e = omega (arith, get_elem?-below xs i e)

  set-SameThere :
      (channels : List (Option (NetChannel B))) (i : ℕ) (ch : NetChannel B)
      → i < length channels
      → SameThere channels (set channels i (some ch))
  set-SameThere channels i ch lt j h = elim (ℕ_discrete i j) [
    | yes e ↦ (
      ch,
      subst (λ k. get_elem? (set channels i (some ch)) k ≡ some (some ch)) e
          (get_elem?-set_self channels i (some ch) lt),
    )
    | no n ↦ (h.0, get_elem?-set_ne channels (some ch) n ∙ h.1)
  ]

  -- All the calls find their channel.
  pub record Called (f : SendState B → SendState B) (cs : List ℕ)
      (channels : List (Option (NetChannel B))) : Type 0 where
    pub channels_after : List (Option (NetChannel B))
    pub result : settle_channels f cs channels ≡ some channels_after
    pub same : SameThere channels channels_after

  pub settle_channels-Called :
      (f : SendState B → SendState B) (cs : List ℕ) (channels : List (Option (NetChannel B)))
      → AreThere channels cs
      → Called f cs channels
  unfolding settle_channels settle_at
  settle_channels-Called f [] channels h = record {
    channels_after = channels;
    result = refl;
    same = λ j k. k;
  }
  settle_channels-Called f (c ∷ cs) channels h =
      let (ch, e) = h.0 in
      let ch' : NetChannel B = record ch { sending = f ch.sending } in
      let one = set-SameThere channels c ch' (get_elem?-below channels c e) in
      let rest =
        settle_channels-Called f cs (set channels c (some ch'))
          (AreThere-same channels _ cs one h.1) in
      record {
        channels_after = rest.channels_after;
        result = rw (e) rest.result;
        same = λ j k. rest.same j (one j k);
      }
