-- ===== src/Scoring/World.antt =====
-- scoring_worker.py: the boundaries of the worker, and the tables, the chain and the file that it
-- writes.
use decentralized_claims_reg.Prelude.{ℕ, String, Bool, Option, List}
use decentralized_claims_reg.Prelude.Text.{decimal, append}
use decentralized_claims_reg.Postgres.{Result, ok, err, Action}
use decentralized_claims_reg.Scoring.Assessments as Assessments
use decentralized_claims_reg.Scoring.Assessments.{
  Status, under_review, flagged, FraudScore, AssessmentRecord, Row, is_completed, from_score,
  get_by_event_id, save_scored, mark_completed, mark_failed, storage_unavailable,
}
use decentralized_claims_reg.Scoring.Duplicates as Duplicates
use decentralized_claims_reg.Scoring.Duplicates.{
  Claim, Fingerprint, DuplicateCheck, Detector, check,
}
use decentralized_claims_reg.Scoring.Features as Features
use decentralized_claims_reg.Scoring.Features.{
  ClaimFeatureSnapshot, Features, process_features, insurer_mismatch, timestamp_out_of_range,
  incident_after_event, not_a_ratio,
}

-- An exception: `PermanentClaimProcessingError` with its reason code, or any other with its text.
pub data Failure : Type 0 where
  permanent : String → String → Failure
  retryable : String → Failure

-- `str(exc)`
abbrev pub text_of : Failure → String
text_of (permanent code message) = message
text_of (retryable message) = message

-- `InsurerPrincipal` and `ClaimantPrincipal`, with what the worker reads of them.
pub data Principal : Type 0 where
  insurer_principal claimant_principal : String → String → Principal

abbrev pub insurer_of : Principal → String
insurer_of (insurer_principal insurer signer) = insurer
insurer_of (claimant_principal insurer claimant) = insurer

abbrev pub authorized_claimant : Principal → String
authorized_claimant (insurer_principal insurer signer) = signer
authorized_claimant (claimant_principal insurer claimant) = claimant

-- How the verification of a document's authorization ends.
pub data Verification : Type 0 where
  verified : Principal → Verification
  not_authorized : Verification
  broken : String → Verification

pub record ChainClaim : Type 0 where
  pub claim_id : ℕ
  pub claimant : String
  pub claim_hash : String
  pub data_pointer : String
  pub status : ℕ
  pub fraud_score : ℕ
  pub submitted_at : ℕ
  pub updated_at : ℕ

pub record ChainAssessment : Type 0 where
  pub transaction_hash : String
  pub block_number : ℕ
  pub status : ℕ
  pub fraud_score : ℕ

-- `AssessmentRegistry`, over the states of a chain: an answer or the text of an exception. A write
-- that raises may have changed the chain.
pub record Registry (C : Type 0) : Type 0 where
  pub get_claim : C → ℕ → Result String ChainClaim
  pub assess_claim : C → ℕ → ℕ → ℕ → Result String ChainAssessment × C

-- The boundaries of `ClaimScoringHandler`: IPFS, the Keccak digest in hexadecimal, the document's
-- schema, the gateway's signature, the model, the two privacy-preserving stages and the registry.
pub record Services (C : Type 0) : Type 0 where
  pub download_pointer : String → Result String String
  pub keccak : String → String
  pub validate_json : String → Option Claim
  pub verify_claim : Claim → Verification
  pub score : Claim → Result String FraudScore
  pub detector : Detector
  pub features : Features
  pub registry : Registry C

-- A call of `assess_claim`, for which event, and whether it returned.
pub record Write : Type 0 where
  pub event_id : String
  pub claim_id : ℕ
  pub status : ℕ
  pub fraud_score : ℕ
  pub returned : Bool

-- A line of the worker's dead-letter file.
pub record DeadLetter : Type 0 where
  pub recorded_at : ℕ
  pub reason_code : String
  pub reason : String
  pub event_id : String
  pub chain_id : ℕ
  pub contract_address : String
  pub claim_id : ℕ
  pub block_number : ℕ
  pub transaction_hash : String
  pub log_index : ℕ
  pub data_pointer : String

-- The three tables, the chain with the calls made of it, and the dead-letter file.
pub record World (C : Type 0) : Type 0 where
  pub assessments : List Row
  pub fingerprints : List Fingerprint
  pub snapshots : List ClaimFeatureSnapshot
  pub chain : C
  pub writes : List Write
  pub dead_letters : List DeadLetter

-- The worker's two allowed outcomes: UnderReview (1) and Flagged (4).
abbrev pub desired_status : Status → ℕ
desired_status flagged = 4
desired_status under_review = 1

abbrev pub feature_message : Features.Error → String
feature_message insurer_mismatch = "Duplicate result insurer does not match the claim"
feature_message timestamp_out_of_range = "Claim event timestamp is outside the supported range"
feature_message incident_after_event = "Incident date cannot be later than the claim event"
feature_message not_a_ratio = "float division by zero"
feature_message Features.storage_unavailable = "PostgreSQL claim storage is unavailable"

abbrev pub storage_failure : Failure
storage_failure = retryable "PostgreSQL claim storage is unavailable"

abbrev pub conflict : ℕ → Failure
conflict claim =
    permanent "assessment_conflict"
      (append "Claim " (append (decimal claim) " already has a different assessment"))

abbrev pub Effect : Type 0 → Type 0 → Type 0
Effect C = Action (World C) Failure

module _ {C : Type 0} where
  abbrev pub lifted : {A : Type 0} → Result String A → Effect C A
  lifted (ok a) w = (ok a, w)
  lifted (err m) w = (err (retryable m), w)

  -- Each repository call is a transaction of its own.
  abbrev pub from_assessments :
      {A : Type 0} → World C → Result Assessments.Error A × List Row → Result Failure A × World C
  from_assessments w (ok a, t) = (ok a, record w { assessments = t })
  from_assessments w (err x, t) = (err storage_failure, record w { assessments = t })

  abbrev pub in_assessments : {A : Type 0} → Assessments.Tx A → Effect C A
  in_assessments m w = from_assessments w (m w.assessments)

  abbrev pub from_fingerprints :
      {A : Type 0}
      → World C
      → Result Assessments.Error A × List Fingerprint
      → Result Failure A × World C
  from_fingerprints w (ok a, t) = (ok a, record w { fingerprints = t })
  from_fingerprints w (err x, t) = (err storage_failure, record w { fingerprints = t })

  abbrev pub in_fingerprints : {A : Type 0} → Duplicates.Tx A → Effect C A
  in_fingerprints m w = from_fingerprints w (m w.fingerprints)

  abbrev pub from_snapshots :
      {A : Type 0}
      → World C
      → Result Features.Error A × List ClaimFeatureSnapshot
      → Result Failure A × World C
  from_snapshots w (ok a, t) = (ok a, record w { snapshots = t })
  from_snapshots w (err x, t) = (err (retryable (feature_message x)), record w { snapshots = t })

  abbrev pub in_snapshots : {A : Type 0} → Features.Tx A → Effect C A
  in_snapshots m w = from_snapshots w (m w.snapshots)
