-- ===== src/Index/Tables.antt =====
-- The rows of the claim index: migrations 002_blockchain_claim_index.sql and 003, and the
-- arguments that the listener passes to claim_index_repository.py.
use decentralized_claims_reg.Prelude.{ℕ, String, Bool, List, ltb, ◌==◌, ◌&&◌, ◌||◌, not}
use decentralized_claims_reg.Prelude.Text.{decimal, append, lower}

pub data EventType : Type 0 where
  claim_submitted claim_assessed : EventType

-- `claim_index_events`
pub record EventRow : Type 0 where
  pub event_id : String
  pub chain_id : ℕ
  pub contract_address : String
  pub claim_id : ℕ
  pub event_type : EventType
  pub block_number : ℕ
  pub block_hash : String
  pub transaction_hash : String
  pub log_index : ℕ
  pub event_timestamp : ℕ
  pub status : ℕ
  pub fraud_score : ℕ
  pub indexed_at : ℕ

-- `indexed_claims`
pub record ClaimRow : Type 0 where
  pub chain_id : ℕ
  pub contract_address : String
  pub claim_id : ℕ
  pub claimant : String
  pub claim_hash : String
  pub data_pointer : String
  pub status : ℕ
  pub fraud_score : ℕ
  pub submitted_at : ℕ
  pub updated_at : ℕ
  pub submission_block_number : ℕ
  pub submission_transaction_hash : String
  pub state_block_number : ℕ
  pub state_log_index : ℕ
  pub state_event_id : String
  pub indexed_at : ℕ

-- `claim_index_checkpoints`
pub record CheckpointRow : Type 0 where
  pub chain_id : ℕ
  pub contract_address : String
  pub last_processed_block : ℕ
  pub updated_at : ℕ

pub record Index : Type 0 where
  pub events : List EventRow
  pub claims : List ClaimRow
  pub checkpoints : List CheckpointRow

-- The error that the writes raise. The schema's range checks on the chain's data are not modelled.
pub data Error : Type 0 where
  missing_submission : Error

-- What one log says beside its own fields: the keyword arguments that both operations share.
pub record Log : Type 0 where
  pub chain_id : ℕ
  pub contract_address : String
  pub claim_id : ℕ
  pub block_number : ℕ
  pub block_hash : String
  pub transaction_hash : String
  pub log_index : ℕ
  pub event_timestamp : ℕ

-- `claim_index_event_id`
unfoldable pub claim_index_event_id : ℕ → String → ℕ → String
claim_index_event_id chain transaction index =
    append (decimal chain) (append ":" (append (lower transaction) (append ":" (decimal index))))

-- `(a, b) <= (c, d)` between positions
unfoldable pub at_or_before : ℕ → ℕ → ℕ → ℕ → Bool
at_or_before a b c d = ltb a c || (a == c && not (ltb d b))
