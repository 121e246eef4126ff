-- ===== src/Index/Write.antt =====
-- claim_index_repository.py: what the listener writes, one transaction for each operation.
use decentralized_claims_reg.Prelude.{
  ℕ, String, Bool, Option, none, some, List, [], ◌∷◌, ◌==◌, ltb, leb, ◌&&◌, max, if◌then◌else◌,
}
use decentralized_claims_reg.Prelude.Lists.{find, update}
use decentralized_claims_reg.Prelude.Text.{str_eq, lower}
use decentralized_claims_reg.Postgres.{Action, pure, raise, gets, modify, transaction, ◌>>=◌, ◌>>◌}
use decentralized_claims_reg.Index.Tables.{
  EventType, claim_submitted, claim_assessed, EventRow, ClaimRow, CheckpointRow, Index, Error, Log,
  missing_submission, claim_index_event_id, at_or_before,
}

abbrev pub Tx : Type 0 → Type 0
Tx = Action Index Error

-- Both errors that these operations raise are storage errors, which `cursor` lets through.
abbrev pub cursor : {A : Type 0} → Tx A → Tx A
cursor = transaction λ e. e

unfoldable pub event_of : Log → EventType → ℕ → ℕ → ℕ → EventRow
event_of l type status score now = record {
  event_id = claim_index_event_id l.chain_id (lower l.transaction_hash) l.log_index;
  chain_id = l.chain_id;
  contract_address = lower l.contract_address;
  claim_id = l.claim_id;
  event_type = type;
  block_number = l.block_number;
  block_hash = lower l.block_hash;
  transaction_hash = lower l.transaction_hash;
  log_index = l.log_index;
  event_timestamp = l.event_timestamp;
  status = status;
  fraud_score = score;
  indexed_at = now;
}

-- `ON CONFLICT (event_id) DO NOTHING`
unfoldable pub insert_event : EventRow → List EventRow → List EventRow
insert_event e [] = e ∷ []
insert_event e (f ∷ rest) =
    let further = insert_event e rest in
    if str_eq f.event_id e.event_id then f ∷ rest else f ∷ further

unfoldable pub record_event : EventRow → Tx (Unit {0})
record_event e = modify (λ s. record s { events = insert_event e s.events })

-- The primary key of `indexed_claims`.
unfoldable pub is_claim : Log → ClaimRow → Bool
is_claim l r =
    r.chain_id == l.chain_id
    && str_eq r.contract_address (lower l.contract_address)
    && r.claim_id == l.claim_id

unfoldable pub submitted_row : Log → String → String → String → ℕ → ClaimRow
submitted_row l claimant hash pointer now = record {
  chain_id = l.chain_id;
  contract_address = lower l.contract_address;
  claim_id = l.claim_id;
  claimant = claimant;
  claim_hash = lower hash;
  data_pointer = pointer;
  status = 0;
  fraud_score = 0;
  submitted_at = l.event_timestamp;
  updated_at = l.event_timestamp;
  submission_block_number = l.block_number;
  submission_transaction_hash = lower l.transaction_hash;
  state_block_number = l.block_number;
  state_log_index = l.log_index;
  state_event_id = claim_index_event_id l.chain_id (lower l.transaction_hash) l.log_index;
  indexed_at = now;
}

-- `state_log_index = CASE …`
abbrev merge_log_index : ClaimRow → ClaimRow → ℕ
merge_log_index new old =
    if ltb old.state_block_number new.state_block_number
    then new.state_log_index
    else if new.state_block_number == old.state_block_number
    then max old.state_log_index new.state_log_index
    else old.state_log_index

-- `ON CONFLICT … DO UPDATE SET` of `index_claim_submitted`; `new` is `EXCLUDED`.
unfoldable pub merge : ClaimRow → ClaimRow → ClaimRow
merge new old =
    let newer =
      at_or_before old.state_block_number old.state_log_index new.state_block_number
        new.state_log_index in
    record old {
      claimant = new.claimant;
      claim_hash = new.claim_hash;
      data_pointer = new.data_pointer;
      submitted_at = new.submitted_at;
      submission_block_number = new.submission_block_number;
      submission_transaction_hash = new.submission_transaction_hash;
      status = if newer then new.status else old.status;
      fraud_score = if newer then new.fraud_score else old.fraud_score;
      updated_at = if newer then new.updated_at else old.updated_at;
      state_block_number = max old.state_block_number new.state_block_number;
      state_log_index = merge_log_index new old;
      state_event_id = if newer then new.state_event_id else old.state_event_id;
      indexed_at = new.indexed_at;
    }

unfoldable pub upsert_claim : Log → ClaimRow → List ClaimRow → List ClaimRow
upsert_claim l r [] = r ∷ []
upsert_claim l r (x ∷ rest) =
    let further = upsert_claim l r rest in if is_claim l x then merge r x ∷ rest else x ∷ further

unfoldable pub index_claim_submitted : Log → String → String → String → ℕ → Tx (Unit {0})
unfolding record_event
index_claim_submitted l claimant hash pointer now = cursor do
  record_event (event_of l claim_submitted 0 0 now)
  modify (λ s. record s {
    claims = upsert_claim l (submitted_row l claimant hash pointer now) s.claims;
  })

unfoldable pub assess : Log → ℕ → ℕ → ℕ → ClaimRow → ClaimRow
assess l status score now r = record r {
  status = status;
  fraud_score = score;
  updated_at = l.event_timestamp;
  state_block_number = l.block_number;
  state_log_index = l.log_index;
  state_event_id = claim_index_event_id l.chain_id (lower l.transaction_hash) l.log_index;
  indexed_at = now;
}

-- The `WHERE` of `index_claim_assessed`.
unfoldable pub not_after : Log → ClaimRow → Bool
not_after l r =
    is_claim l r && at_or_before r.state_block_number r.state_log_index l.block_number l.log_index

unfoldable pub check_claim : Option ClaimRow → Tx (Unit {0})
check_claim none = raise missing_submission
check_claim (some r) = pure tt

-- `if cursor.rowcount: return`
unfoldable pub after_update : Log → Option ClaimRow → Tx (Unit {0})
unfolding check_claim
after_update l (some r) = pure tt
after_update l none = do row ← gets (λ s. find (is_claim l) s.claims); check_claim row

unfoldable pub index_claim_assessed : Log → ℕ → ℕ → ℕ → Tx (Unit {0})
unfolding record_event after_update
index_claim_assessed l status score now = cursor do
  record_event (event_of l claim_assessed status score now)
  hit ← gets (λ s. find (not_after l) s.claims)
  modify (λ s. record s { claims = update (not_after l) (assess l status score now) s.claims })
  after_update l hit

-- The primary key of `claim_index_checkpoints`.
unfoldable pub is_deployment : ℕ → String → CheckpointRow → Bool
is_deployment chain contract c = c.chain_id == chain && str_eq c.contract_address (lower contract)

unfoldable pub advance : ℕ → ℕ → CheckpointRow → CheckpointRow
advance block now c =
    if leb c.last_processed_block block
    then record c { last_processed_block = block; updated_at = now }
    else c

unfoldable pub put_checkpoint : ℕ → String → ℕ → ℕ → List CheckpointRow → List CheckpointRow
put_checkpoint chain contract block now [] =
    record {
      chain_id = chain;
      contract_address = lower contract;
      last_processed_block = block;
      updated_at = now;
    }
    ∷ []
put_checkpoint chain contract block now (c ∷ rest) =
    let further = put_checkpoint chain contract block now rest in
    if is_deployment chain contract c then advance block now c ∷ rest else c ∷ further

unfoldable pub save_checkpoint : ℕ → String → ℕ → ℕ → Tx (Unit {0})
save_checkpoint chain contract block now =
    cursor
      (modify λ s. record s { checkpoints = put_checkpoint chain contract block now s.checkpoints })

unfoldable pub get_status : ℕ → String → Tx (Option CheckpointRow)
get_status chain contract = cursor (gets λ s. find (is_deployment chain contract) s.checkpoints)

abbrev pub block_or : ℕ → Option CheckpointRow → ℕ
block_or default none = default
block_or default (some c) = c.last_processed_block

unfoldable pub load_checkpoint : ℕ → String → ℕ → Tx ℕ
unfolding get_status
load_checkpoint chain contract default = do
  status ← get_status chain contract
  pure (block_or default status)
