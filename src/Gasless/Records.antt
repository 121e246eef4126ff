-- ===== src/Gasless/Records.antt =====
-- The rows of the sponsored-submission tables: `GaslessSubmissionRecord` of
-- packages/integrations/postgres/records.py, `SignedRelayTransaction` of
-- gasless_submission_repository.py, and the tables of the migrations. A UUID is a number, a
-- timestamp counts microseconds since the epoch, and a nullable column is an `Option`.
use decentralized_claims_reg.Prelude.{ℕ, String, Bool, true, false, Option, List, ◌==◌}

pub data State : Type 0 where
  preparing prepared authorized signed broadcast confirmed failed expired : State

abbrev ordinal : State → ℕ
ordinal preparing = 0
ordinal prepared = 1
ordinal authorized = 2
ordinal signed = 3
ordinal broadcast = 4
ordinal confirmed = 5
ordinal failed = 6
ordinal expired = 7

-- `state = '…'`
abbrev pub state_eq : State → State → Bool
state_eq s t = ordinal s == ordinal t

-- `ACTIVE_STATES`
abbrev pub active_state : State → Bool
active_state confirmed = false
active_state failed = false
active_state expired = false
active_state _ = true

pub data Kind : Type 0 where
  insurer public : Kind

-- The columns that `begin_preparation` writes and no later statement changes.
pub record Request : Type 0 where
  pub submission_id : ℕ
  pub credential_id : String
  pub insurer_id : String
  pub signer_address : String
  pub chain_id : ℕ
  pub contract_address : String
  pub forwarder_address : String
  pub idempotency_key_hash : String
  pub request_fingerprint : String
  pub client_fingerprint : String
  pub submission_kind : Kind
  pub claimant_address : Option String
  pub insurer_address : Option String
  pub claimant_commitment : Option String
  pub policy_id : Option String
  pub permit_issuer_address : Option String

pub record Submission : Type 0 where
  pub request : Request
  pub open request use *
  pub state : State
  pub claim_hash : Option String
  pub data_pointer : Option String
  pub call_data : Option String
  pub forwarder_nonce : Option ℕ
  pub forward_gas : Option ℕ
  pub deadline : Option ℕ
  pub insurer_signature : Option String
  pub relayer_address : Option String
  pub relayer_nonce : Option ℕ
  pub raw_transaction : Option String
  pub transaction_hash : Option String
  pub max_fee_per_gas : Option ℕ
  pub max_priority_fee_per_gas : Option ℕ
  pub block_number : Option ℕ
  pub claim_id : Option ℕ
  pub relay_attempts : ℕ
  pub last_error_code : Option String
  pub created_at : ℕ
  pub updated_at : ℕ
  pub authorized_at : Option ℕ
  pub broadcast_at : Option ℕ
  pub last_broadcast_at : Option ℕ
  pub confirmed_at : Option ℕ

pub record SignedRelayTransaction : Type 0 where
  pub nonce : ℕ
  pub raw_transaction : String
  pub transaction_hash : String
  pub max_fee_per_gas : ℕ
  pub max_priority_fee_per_gas : ℕ

-- `gasless_relayer_nonces`
pub record NonceRow : Type 0 where
  pub chain_id : ℕ
  pub relayer_address : String
  pub next_nonce : ℕ

-- `gasless_relay_attempts`
pub record Attempt : Type 0 where
  pub submission_id : ℕ
  pub attempt_number : ℕ
  pub transaction : SignedRelayTransaction
  pub open transaction use *
  pub broadcast_at : Option ℕ

-- The three tables.
pub record Outbox : Type 0 where
  pub submissions : List Submission
  pub nonces : List NonceRow
  pub attempts : List Attempt

-- `GaslessSubmissionError` and its subclasses, with the reason in place of the message. A
-- violated constraint of the schema, and a failure in the caller's signer, end the operation too.
pub data Error : Type 0 where
  not_found : Error
  key_reused wallet_active different_signature deadline_expired wrong_nonce : Error
  replacement_wrong_nonce fees_must_increase different_receipt : Error
  cannot_authorize cannot_sign cannot_broadcast cannot_bump cannot_confirm : State → Error
  minute_limit client_limit daily_quota_reached : ℕ → Error
  storage_unavailable : Error
  chain_error : String → Error
