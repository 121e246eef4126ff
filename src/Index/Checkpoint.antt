-- ===== src/Index/Checkpoint.antt =====
-- The block checkpoint of claim_index_repository.py.
use decentralized_claims_reg.Prelude.{
  ℕ, String, true, false, Option, none, some, List, [], ◌∷◌, ◌≡◌, refl, ap, ◌∙◌, inl, inr, arith,
  max, Bool-cases, ==-self, cond,
}
use decentralized_claims_reg.Prelude.Text.{lower, eq_iff, str_eq_self}
use decentralized_claims_reg.Prelude.Lists.{find}
use decentralized_claims_reg.Postgres.{ok}
use decentralized_claims_reg.Index.Tables.{CheckpointRow, Index}
use decentralized_claims_reg.Index.Write.{
  is_deployment, advance, put_checkpoint, save_checkpoint, get_status, block_or, load_checkpoint,
}

-- The block that is stored once `b` has been saved.
abbrev pub saved : ℕ → Option CheckpointRow → ℕ
saved b none = b
saved b (some c) = max c.last_processed_block b

advance-deployment :
    (chain : ℕ) (contract : String) (b now : ℕ) (c : CheckpointRow)
    → is_deployment chain contract (advance b now c) ≡ is_deployment chain contract c
unfolding is_deployment advance
advance-deployment chain contract b now c = ground arith

advance_block :
    (b now : ℕ) (c : CheckpointRow)
    → (advance b now c).last_processed_block ≡ max c.last_processed_block b
unfolding advance
advance_block b now c = ground arith

is_deployment_self :
    (chain b now : ℕ) (contract : String)
    → is_deployment chain contract (record {
      chain_id = chain;
      contract_address = lower contract;
      last_processed_block = b;
      updated_at = now;
    })
      ≡ true
unfolding is_deployment
is_deployment_self chain b now contract =
    ground (arith, ==-self chain, str_eq_self (lower contract))

pub find-put :
    (chain b now d : ℕ) (contract : String) (cs : List CheckpointRow)
    → block_or d (find (is_deployment chain contract) (put_checkpoint chain contract b now cs))
      ≡ saved b (find (is_deployment chain contract) cs)
unfolding find put_checkpoint
find-put chain b now d contract [] = rw (is_deployment_self chain b now contract) refl
find-put chain b now d contract (c ∷ cs) = elim (Bool-cases (is_deployment chain contract c)) [
  | inl t ↦ rw (t, advance-deployment chain contract b now c, t) (advance_block b now c)
  | inr t ↦ rw (t, t) (find-put chain b now d contract cs)
]

-- One row is not of two deployments.
apart :
    (chain other : ℕ) (contract contract' : String) (c : CheckpointRow)
    → ¬ ((chain ≡ other) × (lower contract ≡ lower contract'))
    → is_deployment chain contract c ≡ true
    → is_deployment other contract' c ≡ false
unfolding is_deployment
apart chain other contract contract' c differ h = ground (
  arith,
  (eq_iff c.contract_address (lower contract)).0,
  (eq_iff c.contract_address (lower contract')).0,
)

module _ (chain b now d other : ℕ) (contract contract' : String) where
  find-put_other :
      (cs : List CheckpointRow)
      → ¬ ((chain ≡ other) × (lower contract ≡ lower contract'))
      → find (is_deployment other contract') (put_checkpoint chain contract b now cs)
        ≡ find (is_deployment other contract') cs
  unfolding find put_checkpoint
  find-put_other [] h =
      rw (apart chain other contract contract' _ h (is_deployment_self chain b now contract)) refl
  find-put_other (c ∷ cs) h = elim (Bool-cases (is_deployment chain contract c)) [
    | inl t ↦
        let same : is_deployment chain contract (advance b now c) ≡ true =
          advance-deployment chain contract b now c ∙ t in
        rw
          (
            t,
            apart chain other contract contract' c h t,
            apart chain other contract contract' (advance b now c) h same,
          )
          refl
    | inr t ↦ rw t (ap (cond (is_deployment other contract' c) (some c)) (find-put_other cs h))
  ]

-- A saved block never goes back: what is loaded after a save is the larger of the stored and the
-- saved block, and the saved block where none was stored; other deployments load what they did.
load-save :
    (s : Index) (chain b now d other : ℕ) (contract contract' : String)
    → let t = (save_checkpoint chain contract b now s).1 in
      ((load_checkpoint chain contract d t).0
        ≡ ok (saved b (find (is_deployment chain contract) s.checkpoints)))
      × (¬ ((chain ≡ other) × (lower contract ≡ lower contract'))
          → (load_checkpoint other contract' d t).0 ≡ (load_checkpoint other contract' d s).0)
unfolding save_checkpoint load_checkpoint get_status
load-save s chain b now d other contract contract' = (
  ap ok (find-put chain b now d contract s.checkpoints),
  λ h.
      ap (λ o. ok (block_or d o))
        (find-put_other chain b now d other contract contract' s.checkpoints h),
)
