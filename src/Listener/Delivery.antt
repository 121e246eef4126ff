-- ===== src/Listener/Delivery.antt =====
-- No submission is lost: what holds after any polls, failures and restarts of the listener.
use decentralized_claims_reg.Prelude.{
  ℕ, String, Bool, true, List, [], ◌∷◌, ◌++◌, ◌≡◌, sym, ap, subst, ◌⊎◌, inl, inr, ltb, leb, ◌&&◌,
  Bool-cases,
}
use decentralized_claims_reg.Prelude.Lists.{All, Some, Some-left, keep}
use decentralized_claims_reg.Postgres.{Result, ok, err}
use decentralized_claims_reg.Index.Tables.{claim_index_event_id}
use decentralized_claims_reg.Listener.Events.{
  Event, submitted, assessed, log_of, dead_letter, ListenerError, World, message, event_log,
  entries,
}
use decentralized_claims_reg.Listener.Verified.{Settled, Grew, RangeEnds, completes, stops}
use decentralized_claims_reg.Listener.Loop.{Config, Round, services}

abbrev pub block : Event → ℕ
block e = (log_of e).block_number

-- The events after block `a` up to block `b`.
abbrev pub up_to : ℕ → ℕ → Event → Bool
up_to a b e = ltb a (block e) && leb (block e) b

module _ {A : Type 0} (p : A → Bool) (P : A → Type 0) where
  pub kept_if : (xs : List A) → All P (keep p xs) → All (λ x. p x ≡ true → P x) xs
  unfolding keep
  kept_if [] h = tt
  kept_if (x ∷ xs) h = elim (Bool-cases (p x)) [
    | inl t ↦ let k : P x × All P (keep p xs) = rw t at h in ((λ _. k.0), kept_if xs k.1)
    | inr t ↦ ((λ e. absurd (cc)), kept_if xs (rw t at h))
  ]

  pub keep_if : (xs : List A) → All (λ x. p x ≡ true → P x) xs → All P (keep p xs)
  unfolding keep
  keep_if [] h = tt
  keep_if (x ∷ xs) h = elim (Bool-cases (p x)) [
    | inl t ↦ rw t (h.0 t, keep_if xs h.1)
    | inr t ↦ rw t (keep_if xs h.1)
  ]

module _ {A : Type 0} (P : A → Type 0) where
  pub All-left : (xs ys : List A) → All P (xs ++ ys) → All P xs
  All-left [] ys h = tt
  All-left (x ∷ xs) ys h = (h.0, All-left xs ys h.1)

  pub member : (xs : List A) (x : A) → All P xs → Some (λ y. y ≡ x) xs → P x
  member [] x h k = elim k [ ]
  member (y ∷ xs) x h (inl e) = subst P e h.0
  member (y ∷ xs) x h (inr k) = member xs x h.1 k

module _ (c : Config) where
  -- The message of a submission, or a line of the dead-letter file for it, has been written.
  abbrev pub Delivered : World → Event → Type 0
  Delivered w (submitted k claimant hash pointer) =
      Some
        (λ m. m ≡ record {
          event_id = claim_index_event_id c.chain_id k.transaction_hash k.log_index;
          source = record {
            chain_id = c.chain_id;
            contract_address = c.contract_address;
            claim_id = k.claim_id;
            block_number = k.block_number;
            block_hash = k.block_hash;
            transaction_hash = k.transaction_hash;
            log_index = k.log_index;
            event_timestamp = k.timestamp;
          };
          claimant = claimant;
          claim_hash = hash;
          data_pointer = pointer;
        })
        w.topic
      ⊎ Some (λ d. (reason : String) × (d ≡ dead_letter (submitted k claimant hash pointer) reason))
          w.dead_letters
  Delivered w (assessed k status score) = Unit

  module _ (r : Round) where
    pub Delivered-Grew :
        (w x : World) (e : Event) → Grew (services c r) w x → Delivered w e → Delivered x e
    Delivered-Grew w x (submitted k claimant hash pointer) g (inl on) =
        inl (subst (Some _) (sym g.topic_grows) (Some-left _ w.topic g.new on))
    Delivered-Grew w x (submitted k claimant hash pointer) g (inr buried) =
        inr (subst (Some _) (sym g.dead_grows) (Some-left _ w.dead_letters g.dead buried))
    Delivered-Grew w x (assessed k status score) g h = tt

    pub Settled-Delivered : (w : World) (e : Event) → Settled (services c r) w e → Delivered w e
    unfolding message event_log
    Settled-Delivered w (submitted k claimant hash pointer) (inl (valid, inl off)) = absurd (cc)
    Settled-Delivered w (submitted k claimant hash pointer) (inl (valid, inr on)) = inl on
    Settled-Delivered w (submitted k claimant hash pointer) (inr buried) = inr buried
    Settled-Delivered w (assessed k status score) h = tt

    pub ok_ends :
        (w u : World) (from to : ℕ) (out : Result ListenerError (Unit {0}) × World)
        → RangeEnds (services c r) w from to out
        → out ≡ (ok tt, u)
        → Grew (services c r) w u × All (Settled (services c r) u) (entries (services c r) from to)
    ok_ends w u from to out (completes {x} g all_) e =
        subst
          (λ y.
            Grew (services c r) w y
            × All (Settled (services c r) y) (entries (services c r) from to))
          (ap (λ (o : Result ListenerError (Unit {0}) × World). o.1) e) (g, all_)
    ok_ends w u from to out (stops g) e = absurd (cc)

    pub err_ends :
        (w u : World) (from to : ℕ) (i : ListenerError)
        (out : Result ListenerError (Unit {0}) × World)
        → RangeEnds (services c r) w from to out
        → out ≡ (err i, u)
        → Grew (services c r) w u
    err_ends w u from to i out (completes g all_) e = absurd (cc)
    err_ends w u from to i out (stops {x} g) e =
        subst (Grew (services c r) w) (ap (λ (o : Result ListenerError (Unit {0}) × World). o.1) e)
          g
