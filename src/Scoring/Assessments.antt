-- ===== src/Scoring/Assessments.antt =====
-- assessment_repository.py over the table `claim_assessments` of 001_initial_claim_storage.sql.
-- A float that is only copied stands as its text.
use decentralized_claims_reg.Prelude.{
  ℕ, String, Bool, true, false, Option, none, some, List, [], ◌∷◌, ◌++◌, ◌==◌, ◌&&◌, not, leb, ltb,
  if◌then◌else◌,
}
use decentralized_claims_reg.Prelude.Lists.{find, update, keep}
use decentralized_claims_reg.Prelude.Text.{str_eq, lower, prefix}
use decentralized_claims_reg.Postgres.{
  Action, raise, gets, modify, transaction, when◌run◌otherwise◌, ◌>>=◌,
}

pub data Processing : Type 0 where
  scored completed failed : Processing

abbrev pub is_completed : Processing → Bool
is_completed completed = true
is_completed _ = false

pub data Status : Type 0 where
  under_review flagged : Status

-- `FraudReason` of packages/model/contracts.py
pub record FraudReason : Type 0 where
  pub feature : String
  pub label : String
  pub contribution : String

-- `FraudScore` of packages/model/contracts.py
pub record FraudScore : Type 0 where
  pub probability : String
  pub score_basis_points : ℕ
  pub threshold : String
  pub flagged : Bool
  pub model_version : String
  pub reasons : List FraudReason

-- What the model decided of a claim: the columns that stay once they are acted upon.
pub record Decision : Type 0 where
  pub model_version : String
  pub probability : String
  pub threshold : String
  pub fraud_score : ℕ
  pub status : Status
  pub reasons : List FraudReason

pub record AssessmentRecord : Type 0 where
  pub event_id : String
  pub chain_id : ℕ
  pub contract_address : String
  pub claim_id : ℕ
  pub decision : Decision
  pub open decision use *
  pub processing_status : Processing
  pub transaction_hash : Option String
  pub block_number : Option ℕ
  pub error : Option String

-- `AssessmentRecord.from_score`
unfoldable pub from_score : String → ℕ → String → ℕ → FraudScore → AssessmentRecord
from_score event chain contract claim s = record {
  event_id = event;
  chain_id = chain;
  contract_address = lower contract;
  claim_id = claim;
  decision = record {
    model_version = s.model_version;
    probability = s.probability;
    threshold = s.threshold;
    fraud_score = s.score_basis_points;
    status = if s.flagged then flagged else under_review;
    reasons = s.reasons;
  };
  processing_status = scored;
  transaction_hash = none;
  block_number = none;
  error = none;
}

-- A row of the table: the record and when it was written.
pub record Row : Type 0 where
  pub assessment : AssessmentRecord
  pub open assessment use *
  pub updated_at : ℕ

pub data Error : Type 0 where
  storage_unavailable : Error

abbrev pub Tx : Type 0 → Type 0
Tx = Action (List Row) Error

abbrev pub cursor : {A : Type 0} → Tx A → Tx A
cursor = transaction λ e. e

abbrev pub by_event : String → Row → Bool
by_event event r = str_eq r.event_id event

abbrev assessment_of : Option Row → Option AssessmentRecord
assessment_of none = none
assessment_of (some r) = some r.assessment

unfoldable pub get_by_event_id : String → Tx (Option AssessmentRecord)
get_by_event_id event = cursor (gets (λ rows. assessment_of (find (by_event event) rows)))

-- The columns of the table's second key.
unfoldable pub of_claim : ℕ → String → ℕ → Row → Bool
of_claim chain contract claim r =
    r.chain_id == chain && str_eq r.contract_address contract && r.claim_id == claim

-- `ORDER BY updated_at DESC LIMIT 1`
unfoldable pub latest : List Row → Option Row
latest [] = none
latest (r ∷ rest) = elim (latest rest) [
  | none ↦ some r
  | some s ↦ if ltb r.updated_at s.updated_at then some s else some r
]

unfoldable pub get_latest_for_claim : ℕ → String → ℕ → Tx (Option AssessmentRecord)
unfolding latest
get_latest_for_claim chain contract claim =
    cursor
      (gets (λ rows. assessment_of (latest (keep (of_claim chain (lower contract) claim) rows))))

abbrev pub scored_row : AssessmentRecord → ℕ → Row
scored_row r now = record {
  assessment = record {
    event_id = r.event_id;
    chain_id = r.chain_id;
    contract_address = lower r.contract_address;
    claim_id = r.claim_id;
    decision = r.decision;
    processing_status = scored;
    transaction_hash = none;
    block_number = none;
    error = none;
  };
  updated_at = now;
}

-- `ON CONFLICT (event_id) DO UPDATE SET …`
unfoldable pub rescore : AssessmentRecord → ℕ → Row → Row
rescore r now old = record {
  assessment = record old.assessment {
    decision = r.decision;
    processing_status = scored;
    transaction_hash = none;
    block_number = none;
    error = none;
  };
  updated_at = now;
}

-- The insertion of a new event's row; a row of another event for the same claim is refused.
abbrev insert_row : Option Row → Row → Tx (Unit {0})
insert_row none r = modify (λ rows. rows ++ r ∷ [])
insert_row (some taken) r = raise storage_unavailable

abbrev upsert : Option Row → AssessmentRecord → ℕ → Tx (Unit {0})
upsert (some old) r now =
    modify (
      update (λ x. by_event r.event_id x && not (is_completed x.processing_status)) (rescore r now))
upsert none r now = do
  taken ← gets (find (of_claim r.chain_id (lower r.contract_address) r.claim_id))
  insert_row taken (scored_row r now)

-- The check that a score is at most 10000 comes before the conflict clause; the checks on the two
-- probabilities are not modelled.
unfoldable pub save_scored : AssessmentRecord → ℕ → Tx (Unit {0})
save_scored r now = cursor (
    when leb r.fraud_score 10000
    run (do old ← gets (find (by_event r.event_id)); upsert old r now)
    otherwise raise storage_unavailable)

unfoldable pub complete : Option String → Option ℕ → ℕ → Row → Row
complete hash block now r = record {
  assessment = record r.assessment {
    processing_status = completed;
    transaction_hash = hash;
    block_number = block;
    error = none;
  };
  updated_at = now;
}

unfoldable pub mark_completed : String → Option String → Option ℕ → ℕ → Tx (Unit {0})
mark_completed event hash block now =
    cursor (modify (update (by_event event) (complete hash block now)))

unfoldable pub fail : String → ℕ → Row → Row
fail message now r = record {
  assessment = record r.assessment {
    processing_status = failed;
    error = some (prefix 2000 message);
  };
  updated_at = now;
}

unfoldable pub mark_failed : String → String → ℕ → Tx (Unit {0})
mark_failed event message now = cursor (modify (update (by_event event) (fail message now)))
