-- ===== src/Reconcile/Tests.antt =====
-- A small index beside a small contract.
use decentralized_claims_reg.Prelude.{ℕ, String, true, some, [], ◌∷◌, ◌≡◌, refl, arith}
use decentralized_claims_reg.Prelude.Lists.{find, take, keep}
use decentralized_claims_reg.Prelude.Text.{lower}
use decentralized_claims_reg.Postgres.{ok}
use decentralized_claims_reg.Index.Tables.{ClaimRow, CheckpointRow, Index}
use decentralized_claims_reg.Index.Write.{is_deployment}
use decentralized_claims_reg.Index.Claims.{list_claims}
use decentralized_claims_reg.Scoring.World.{ChainClaim}
use decentralized_claims_reg.Reconcile.{Contract, Deployment, Reconciliation, consistent, reconcile}
use decentralized_claims_reg.Reconcile.Agreement.{UniqueClaims, Agrees, reconcile-consistent}

abbrev row : ℕ → String → ClaimRow
row claim contract = record {
  chain_id = 1;
  contract_address = contract;
  claim_id = claim;
  claimant = "0xCl";
  claim_hash = "0xab";
  data_pointer = "ipfs://a";
  status = 0;
  fraud_score = 0;
  submitted_at = 50;
  updated_at = 50;
  submission_block_number = 10;
  submission_transaction_hash = "0xa1";
  state_block_number = 10;
  state_log_index = 0;
  state_event_id = "e";
  indexed_at = 7;
}

abbrev checkpoint : CheckpointRow
checkpoint = record {
  chain_id = 1;
  contract_address = "0xc0";
  last_processed_block = 40;
  updated_at = 9;
}

-- One claim is missing, and one is of another contract.
abbrev index : Index
index = record {
  events = [];
  claims = row 0 "0xc0" ∷ row 1 "0xc1" ∷ row 2 "0xc0" ∷ [];
  checkpoints = checkpoint ∷ [];
}

abbrev chain_claim : ℕ → ChainClaim
chain_claim i = record {
  claim_id = i;
  claimant = "0xcL";
  claim_hash = "0xAB";
  data_pointer = "ipfs://a";
  status = 0;
  fraud_score = 0;
  submitted_at = 50;
  updated_at = 50;
}

abbrev contract : Contract
contract = record { claim_count = λ b. ok 3; get_claim = λ b i. ok (chain_claim i) }

abbrev deployment : Deployment
deployment = record { chain_id = 1; address = "0xC0" }

index-UniqueClaims : UniqueClaims index.claims
index-UniqueClaims = (
  ((λ h. absurd (omega (arith, h.2))), ((λ h. absurd (omega (arith, h.2))), tt)),
  (((λ h. absurd (omega (arith, h.2))), tt), (tt, tt)),
)

checkpoint_found :
    find (is_deployment deployment.chain_id deployment.address) index.checkpoints ≡ some checkpoint
unfolding find is_deployment lower
checkpoint_found = refl

reconcile-consistent_example :
    (r : Reconciliation) × (reconcile deployment contract index ≡ ok r)
    × (consistent r ≡ true → Agrees deployment index chain_claim 3)
    × (Agrees deployment index chain_claim 3 → consistent r ≡ true)
reconcile-consistent_example =
    reconcile-consistent deployment index contract checkpoint 3 chain_claim index-UniqueClaims
      checkpoint_found refl (λ i l. refl)

one_missing :
    reconcile deployment contract index
    ≡ ok (record {
      indexed_through_block = 40;
      chain_claims = 3;
      indexed_claims = 2;
      missing_claim_ids = 1 ∷ [];
      unexpected_claim_ids = [];
      mismatched_claim_ids = [];
    })
unfolding reconcile find is_deployment lower take list_claims keep
one_missing = refl
