-- ===== src/Reconcile.antt =====
-- apps/listener/reconcile_claim_index.py: the claims of the index beside those of the contract. The
-- contract at one block is a parameter; the index is one state, as the listener is stopped.
pub mod Reading
pub mod Matching
pub mod Rows
pub mod Agreement
pub mod Tests
use decentralized_claims_reg.Prelude.{
  ℕ, zero, suc, String, Bool, true, false, Option, none, some, List, [], ◌∷◌, ltb, ◌==◌, ◌&&◌, ◌||◌,
  ◌+◌, if◌then◌else◌,
}
use decentralized_claims_reg.Prelude.Lists.{find, length}
use decentralized_claims_reg.Prelude.Text.{str_eq, lower}
use decentralized_claims_reg.Postgres.{Result, ok, err}
use decentralized_claims_reg.Index.Tables.{CheckpointRow, Index}
use decentralized_claims_reg.Index.Write.{is_deployment}
use decentralized_claims_reg.Index.Claims.{IndexedClaim, list_claims}
use decentralized_claims_reg.Scoring.World.{ChainClaim}

-- `ContractClaimReader`: the block, and the claim.
pub record Contract : Type 0 where
  pub claim_count : ℕ → Result String ℕ
  pub get_claim : ℕ → ℕ → Result String ChainClaim

pub record Deployment : Type 0 where
  pub chain_id : ℕ
  pub address : String

pub record Reconciliation : Type 0 where
  pub indexed_through_block : ℕ
  pub chain_claims : ℕ
  pub indexed_claims : ℕ
  pub missing_claim_ids : List ℕ
  pub unexpected_claim_ids : List ℕ
  pub mismatched_claim_ids : List ℕ

abbrev pub is_empty {ℓ} : {A : Type ℓ} → List A → Bool
is_empty [] = true
is_empty (x ∷ xs) = false

-- the property `consistent`
abbrev pub consistent : Reconciliation → Bool
consistent r =
    is_empty r.missing_claim_ids
    && is_empty r.unexpected_claim_ids
    && is_empty r.mismatched_claim_ids

unfoldable pub same_public_state : ChainClaim → IndexedClaim → Bool
same_public_state c i =
    c.claim_id == i.claim_id
    && str_eq (lower c.claimant) (lower i.claimant)
    && str_eq (lower c.claim_hash) (lower i.claim_hash)
    && str_eq c.data_pointer i.data_pointer
    && c.status == i.status
    && c.fraud_score == i.fraud_score
    && c.submitted_at == i.submitted_at
    && c.updated_at == i.updated_at

-- The dictionary `indexed_by_id`.
unfoldable pub put_claim : IndexedClaim → List IndexedClaim → List IndexedClaim
put_claim c [] = c ∷ []
put_claim c (d ∷ seen) =
    let further = put_claim c seen in if d.claim_id == c.claim_id then c ∷ seen else d ∷ further

unfoldable pub put_all : List IndexedClaim → List IndexedClaim → List IndexedClaim
unfolding put_claim
put_all [] seen = seen
put_all (c ∷ claims) seen = put_all claims (put_claim c seen)

abbrev pub has_id : ℕ → IndexedClaim → Bool
has_id i c = c.claim_id == i

module _ (d : Deployment) (page_size : ℕ) (s : Index) where
  -- One round of the loop, and the others after it, where the page was not empty.
  abbrev pub turn :
      (ℕ → List IndexedClaim → ℕ → Result String (List IndexedClaim × ℕ))
      → ℕ
      → List IndexedClaim
      → Result String (List IndexedClaim × ℕ)
      → Result String (List IndexedClaim × ℕ)
  turn further page seen (err m) = err m
  turn further page seen (ok ([], count)) = ok (seen, count)
  turn further page seen (ok (c ∷ claims, count)) =
      further (page + 1) (put_all (c ∷ claims) seen) count

  -- The `while` loop; a round for each claim and one more are enough.
  unfoldable pub read_index : ℕ → ℕ → List IndexedClaim → ℕ → Result String (List IndexedClaim × ℕ)
  unfolding put_all
  read_index zero page seen count = err "out of fuel"
  read_index (suc fuel) page seen count =
      let next =
        turn (read_index fuel) page seen (list_claims d.chain_id d.address page page_size s) in
      if page == 1 || ltb (length seen) count then next else ok (seen, count)

module _ (contract : Contract) (block : ℕ) (seen : List IndexedClaim) where
  abbrev pub add_missing : ℕ → Result String (List ℕ × List ℕ) → Result String (List ℕ × List ℕ)
  add_missing i (err m) = err m
  add_missing i (ok (missing, mismatched)) = ok (i ∷ missing, mismatched)

  abbrev pub add_mismatched :
      ℕ → Bool → Result String (List ℕ × List ℕ) → Result String (List ℕ × List ℕ)
  add_mismatched i same (err m) = err m
  add_mismatched i same (ok (missing, mismatched)) =
      ok (missing, if same then mismatched else i ∷ mismatched)

  abbrev pub against :
      ℕ
      → Option IndexedClaim
      → Result String ChainClaim
      → Result String (List ℕ × List ℕ)
      → Result String (List ℕ × List ℕ)
  against i none answer rest = add_missing i rest
  against i (some c) (err m) rest = err m
  against i (some c) (ok chain) rest = add_mismatched i (same_public_state chain c) rest

  -- The `for` loop over `n` identifiers from `i` on: those missing and those mismatched.
  unfoldable pub compare_claims : ℕ → ℕ → Result String (List ℕ × List ℕ)
  unfolding same_public_state
  compare_claims zero i = ok ([], [])
  compare_claims (suc n) i =
      against i (find (has_id i) seen) (contract.get_claim block i) (compare_claims n (suc i))

-- `sorted`
unfoldable pub place_id : ℕ → List ℕ → List ℕ
place_id i [] = i ∷ []
place_id i (j ∷ ids) = let further = place_id i ids in if ltb j i then j ∷ further else i ∷ j ∷ ids

unfoldable pub unexpected_ids : ℕ → List IndexedClaim → List ℕ
unfolding place_id
unexpected_ids count [] = []
unexpected_ids count (c ∷ seen) =
    let rest = unexpected_ids count seen in
    if ltb c.claim_id count then rest else place_id c.claim_id rest

module _ (d : Deployment) (contract : Contract) (s : Index) where
  abbrev pub compared :
      ℕ → ℕ → ℕ → List IndexedClaim → Result String (List ℕ × List ℕ) → Result String Reconciliation
  compared block count indexed seen (err m) = err m
  compared block count indexed seen (ok (missing, mismatched)) = ok (record {
    indexed_through_block = block;
    chain_claims = count;
    indexed_claims = indexed;
    missing_claim_ids = missing;
    unexpected_claim_ids = unexpected_ids count seen;
    mismatched_claim_ids = mismatched;
  })

  abbrev pub read : ℕ → ℕ → Result String (List IndexedClaim × ℕ) → Result String Reconciliation
  read block count (err m) = err m
  read block count (ok (seen, indexed)) =
      compared block count indexed seen (compare_claims contract block seen count 0)

  abbrev pub counted : ℕ → ℕ → Result String ℕ → Result String Reconciliation
  counted page_size block (err m) = err m
  counted page_size block (ok count) =
      read block count (read_index d page_size s (suc (length s.claims)) 1 [] 0)

  abbrev pub from_status : ℕ → Option CheckpointRow → Result String Reconciliation
  from_status page_size none = err "Claim index has no checkpoint"
  from_status page_size (some c) =
      counted page_size c.last_processed_block (contract.claim_count c.last_processed_block)

  -- `ClaimIndexReconciler.reconcile`
  unfoldable pub reconcile : Result String Reconciliation
  unfolding read_index compare_claims unexpected_ids
  reconcile = from_status 1000 (find (is_deployment d.chain_id d.address) s.checkpoints)
