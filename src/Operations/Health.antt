-- ===== src/Operations/Health.antt =====
-- `IndexerOperationsService.snapshot`: the stored facts beside the chain's head.
use decentralized_claims_reg.Prelude.{
  ℕ, String, Bool, true, false, Option, none, some, List, ltb, leb, ◌==◌, ◌&&◌, ◌-◌, ◌/◌,
  if◌then◌else◌,
}
use decentralized_claims_reg.Postgres.{Result, ok, err}
use decentralized_claims_reg.Index.Tables.{CheckpointRow, Index}
use decentralized_claims_reg.Index.Snapshot.{
  AuditRow, StatusCounts, OperationsSnapshot, get_operations_snapshot,
}
use decentralized_claims_reg.Operations.Search.{Deployment, EventResponse, event_responses}

pub data State : Type 0 where
  uninitialized degraded healthy stalled catching_up : State

-- The arguments of the service that are not collaborators.
pub record Thresholds : Type 0 where
  pub confirmation_blocks : ℕ
  pub stale_after_seconds : ℕ
  pub recent_event_limit : ℕ

-- `rpc_status` is whether there is a latest block.
pub record OperationsResponse : Type 0 where
  pub state : State
  pub rpc_available : Bool
  pub latest_block : Option ℕ
  pub safe_block : Option ℕ
  pub indexed_through_block : Option ℕ
  pub block_lag : Option ℕ
  pub checkpoint_updated_at : Option ℕ
  pub checkpoint_age_seconds : Option ℕ
  pub total_claims : ℕ
  pub total_events : ℕ
  pub submitted_events : ℕ
  pub assessed_events : ℕ
  pub claim_status_counts : StatusCounts
  pub recent_events : List EventResponse
  pub last_reconciliation : Option AuditRow
  pub observed_at : ℕ

-- The checks of the constructor.
abbrev pub is_configured : Thresholds → Bool
is_configured t =
    leb 1 t.stale_after_seconds && leb 1 t.recent_event_limit && leb t.recent_event_limit 100

abbrev is_given {ℓ} : {A : Type ℓ} → Option A → Bool
is_given none = false
is_given (some x) = true

abbrev block_of : Option CheckpointRow → Option ℕ
block_of none = none
block_of (some c) = some c.last_processed_block

abbrev updated_of : Option CheckpointRow → Option ℕ
updated_of none = none
updated_of (some c) = some c.updated_at

-- Whole seconds; a clock that runs behind the database's gives 0.
abbrev age_of : ℕ → Option CheckpointRow → Option ℕ
age_of observed none = none
age_of observed (some c) = some ((observed - c.updated_at) / 1000000)

abbrev safe_of : ℕ → Option ℕ → Option ℕ
safe_of confirmations none = none
safe_of confirmations (some head) = some (head - confirmations)

abbrev lag_of : Option ℕ → Option ℕ → Option ℕ
lag_of (some safe) (some block) = some (safe - block)
lag_of _ _ = none

-- Where the checkpoint is behind the head that is deep enough.
abbrev pub behind_state : Thresholds → ℕ → CheckpointRow → State
behind_state t observed c =
    if leb t.stale_after_seconds ((observed - c.updated_at) / 1000000) then stalled else catching_up

abbrev pub state_of : Thresholds → ℕ → Option CheckpointRow → Option ℕ → State
state_of t observed none head = uninitialized
state_of t observed (some c) none = degraded
state_of t observed (some c) (some head) =
    if ltb head c.last_processed_block
    then degraded
    else if ((head - t.confirmation_blocks) - c.last_processed_block) == 0
    then healthy
    else behind_state t observed c

abbrev pub response_of : Thresholds → ℕ → Option ℕ → OperationsSnapshot → OperationsResponse
response_of t observed head database = record {
  state = state_of t observed database.checkpoint head;
  rpc_available = is_given head;
  latest_block = head;
  safe_block = safe_of t.confirmation_blocks head;
  indexed_through_block = block_of database.checkpoint;
  block_lag = lag_of (safe_of t.confirmation_blocks head) (block_of database.checkpoint);
  checkpoint_updated_at = updated_of database.checkpoint;
  checkpoint_age_seconds = age_of observed database.checkpoint;
  total_claims = database.total_claims;
  total_events = database.total_events;
  submitted_events = database.submitted_events;
  assessed_events = database.assessed_events;
  claim_status_counts = database.claim_status_counts;
  recent_events = event_responses database.recent_events;
  last_reconciliation = database.last_reconciliation;
  observed_at = observed;
}

abbrev sampled :
    Thresholds → ℕ → Option ℕ → Result String OperationsSnapshot → Result String OperationsResponse
sampled t observed head (err m) = err m
sampled t observed head (ok database) = ok (response_of t observed head database)

module _ (text_lt : String → String → Bool) (d : Deployment) (t : Thresholds) (s : Index)
    (audits : List AuditRow) where
  -- `snapshot`, where `head` is the chain's latest block, or none where its client raised.
  unfoldable pub snapshot : ℕ → Option ℕ → Result String OperationsResponse
  unfolding event_responses
  snapshot observed head =
      sampled t observed head
        (get_operations_snapshot text_lt d.chain_id d.address t.recent_event_limit s audits)
