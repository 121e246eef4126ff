-- ===== src/Listener/Ranges.antt =====
-- How the checkpoint and the deliveries move over one range of the listener.
use decentralized_claims_reg.Prelude.{
  ℕ, true, Option, none, some, List, ◌≡◌, refl, sym, ap, ◌∙◌, subst, inl, inr, ◌+◌, ◌-◌, ◌≤◌, leb,
  ◌&&◌, max, arith, Bool-cases,
}
use decentralized_claims_reg.Prelude.Lists.{All, All-imp, All-zip, Some, keep, find}
use decentralized_claims_reg.Postgres.{Result, ok, err}
use decentralized_claims_reg.Index.Tables.{claim_submitted, claim_assessed, CheckpointRow}
use decentralized_claims_reg.Index.Write.{is_deployment, block_or, save_checkpoint}
use decentralized_claims_reg.Index.Checkpoint.{saved, find-put}
use decentralized_claims_reg.Listener.Events.{Event, ListenerError, World, entries, process_range}
use decentralized_claims_reg.Listener.Verified.{Settled, Grew, Grew-same}
use decentralized_claims_reg.Listener.Keeping.{process_range_checkpoints}
use decentralized_claims_reg.Listener.Delivery.{
  block, up_to, kept_if, All-left, member, Delivered, Delivered-Grew, Settled-Delivered,
}
use decentralized_claims_reg.Listener.Loop.{Config, Round, services, poller}

module _ (c : Config) where
  abbrev pub stored : World → Option CheckpointRow
  stored w = find (is_deployment c.chain_id c.contract_address) w.index.checkpoints

  -- The block up to which the index says that everything was processed.
  abbrev pub bound : World → ℕ
  bound w = block_or c.origin (stored w)

  pub saved_bounds :
      (end : ℕ) (o : Option CheckpointRow)
      → (saved end o ≤ max (block_or c.origin o) end) × (end ≤ saved end o)
  saved_bounds end none = (omega arith, omega arith)
  saved_bounds end (some k) = (omega arith, omega arith)

  module _ (r : Round) where
    -- The checkpoint's save never raises, and stores the larger block.
    pub save_bound :
        (end : ℕ) (u v : World)
        → (poller c r).save end u ≡ (ok tt, v)
        → (bound v ≡ saved end (stored u)) × Grew (services c r) u v
    unfolding save_checkpoint
    save_bound end u v e =
        let same = ap (λ (o : Result ListenerError (Unit {0}) × World). o.1) e in
        (
          subst (λ x. bound x ≡ saved end (stored u)) same
              (find-put c.chain_id end r.now c.origin c.contract_address u.index.checkpoints),
          subst (Grew (services c r) u) same (Grew-same (services c r) u _ refl refl),
        )

    pub save_returns :
        (end : ℕ) (u v : World) (e : ListenerError) → (poller c r).save end u ≡ (err e, v) → ⊥
    unfolding save_checkpoint
    save_returns end u v e h = absurd (cc)

    pub range_bound :
        (from to : ℕ) (t u : World) (out : Result ListenerError (Unit {0}))
        → process_range (services c r) r.now from to t ≡ (out, u)
        → bound u ≡ bound t
    range_bound from to t u out e =
        ap (λ (o : Result ListenerError (Unit {0}) × World). bound o.1) (sym e)
        ∙ ap (λ cs. block_or c.origin (find (is_deployment c.chain_id c.contract_address) cs))
            (process_range_checkpoints (services c r) r.now from to t)

  module _ (chain : List Event) where
    -- The node answers a query up to a block that is deep enough with every submission of `chain` in
    -- it: such blocks do not change any more.
    abbrev pub Answers : Round → Type 0
    Answers r =
        (latest from to : ℕ)
        → r.latest ≡ some latest
        → to ≤ latest - c.confirmation_blocks
        → All (λ e. Some (λ f. f ≡ e) (r.get_logs claim_submitted from to))
            (keep (λ e. leb from (block e) && leb (block e) to) chain)

    abbrev pub Held : ℕ → World → Type 0
    Held n w = All (λ e. up_to c.origin n e ≡ true → Delivered c w e) chain

    module _ (r : Round) where
      pub Held-Grew : (n : ℕ) (t u : World) → Grew (services c r) t u → Held n t → Held n u
      Held-Grew n t u g h = All-imp _ _ chain (λ e k up. Delivered-Grew c r t u e g (k up)) h

      -- A range from `b` up to `end` was settled.
      pub Held-advance :
          (n n' b end : ℕ) (u : World)
          → b ≤ n
          → n' ≤ max n end
          → Held n u
          → All (Settled (services c r) u) (entries (services c r) (b + 1) end)
          → All
              (λ e. Some (λ f. f ≡ e) (r.get_logs claim_submitted (b + 1) end))
              (keep (λ e. leb (b + 1) (block e) && leb (block e) end) chain)
          → Held n' u
      unfolding entries
      Held-advance n n' b end u near far h settled answers =
          let answered = kept_if _ _ chain answers in
          All-imp _ _ chain
            (λ e k up. elim (Bool-cases (leb (block e) n)) [
              | inl old ↦ k.0 (ground (arith, up, old))
              | inr new ↦ Settled-Delivered c r u e (
                  member (Settled (services c r) u) (r.get_logs claim_submitted (b + 1) end) e
                    (All-left (Settled (services c r) u) (r.get_logs claim_submitted (b + 1) end)
                      (r.get_logs claim_assessed (b + 1) end) settled)
                    (k.1 (ground (arith, up, new, near, far))))
            ])
            (All-zip _ _ chain h answered)
