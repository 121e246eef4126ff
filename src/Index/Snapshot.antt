-- ===== src/Index/Snapshot.antt =====
-- The operations snapshot of claim_index_repository.py, over the claim index and the audit table
-- of migration 003_claim_index_operations.sql.
use decentralized_claims_reg.Prelude.{
  ℕ, String, Bool, true, false, Option, none, some, List, [], ◌∷◌, ◌++◌, ltb, leb, ◌==◌, ◌&&◌, ◌||◌,
  not, if◌then◌else◌,
}
use decentralized_claims_reg.Prelude.Text.{str_eq, lower}
use decentralized_claims_reg.Prelude.Lists.{length, take, keep, find, count_where}
use decentralized_claims_reg.Postgres.{Result, ok, err}
use decentralized_claims_reg.Index.Tables.{
  EventType, claim_submitted, claim_assessed, EventRow, ClaimRow, CheckpointRow, Index,
}
use decentralized_claims_reg.Index.Search.{newest_first}
use decentralized_claims_reg.Index.Claims.{of_contract}
use decentralized_claims_reg.Index.Write.{is_deployment}

-- `claim_index_reconciliations`
pub record AuditRow : Type 0 where
  pub reconciliation_id : ℕ
  pub chain_id : ℕ
  pub contract_address : String
  pub indexed_through_block : ℕ
  pub chain_claims : ℕ
  pub indexed_claims : ℕ
  pub missing_claim_ids : List ℕ
  pub unexpected_claim_ids : List ℕ
  pub mismatched_claim_ids : List ℕ
  pub consistent : Bool
  pub duration_ms : ℕ
  pub checked_at : ℕ

-- What `record_reconciliation` is given.
pub record Audit : Type 0 where
  pub indexed_through_block : ℕ
  pub chain_claims : ℕ
  pub indexed_claims : ℕ
  pub missing_claim_ids : List ℕ
  pub unexpected_claim_ids : List ℕ
  pub mismatched_claim_ids : List ℕ
  pub consistent : Bool
  pub duration_ms : ℕ

-- The five counts by status.
pub record StatusCounts : Type 0 where
  pub submitted : ℕ
  pub under_review : ℕ
  pub approved : ℕ
  pub rejected : ℕ
  pub flagged : ℕ

pub record OperationsSnapshot : Type 0 where
  pub checkpoint : Option CheckpointRow
  pub total_claims : ℕ
  pub total_events : ℕ
  pub submitted_events : ℕ
  pub assessed_events : ℕ
  pub claim_status_counts : StatusCounts
  pub recent_events : List EventRow
  pub last_reconciliation : Option AuditRow

abbrev pub audit_row : ℕ → String → Audit → ℕ → ℕ → AuditRow
audit_row chain contract a id now = record {
  reconciliation_id = id;
  chain_id = chain;
  contract_address = lower contract;
  indexed_through_block = a.indexed_through_block;
  chain_claims = a.chain_claims;
  indexed_claims = a.indexed_claims;
  missing_claim_ids = a.missing_claim_ids;
  unexpected_claim_ids = a.unexpected_claim_ids;
  mismatched_claim_ids = a.mismatched_claim_ids;
  consistent = a.consistent;
  duration_ms = a.duration_ms;
  checked_at = now;
}

-- The statement's INSERT, where `id` is the next number of the identity column.
unfoldable pub record_reconciliation : ℕ → String → Audit → ℕ → ℕ → List AuditRow → List AuditRow
record_reconciliation chain contract a id now rows = rows ++ audit_row chain contract a id now ∷ []

abbrev pub is_audit : ℕ → String → AuditRow → Bool
is_audit chain contract r = r.chain_id == chain && str_eq r.contract_address (lower contract)

-- `checked_at DESC, reconciliation_id DESC`
abbrev pub audited_before : AuditRow → AuditRow → Bool
audited_before r s =
    ltb r.checked_at s.checked_at
    || (r.checked_at == s.checked_at && ltb r.reconciliation_id s.reconciliation_id)

abbrev later_of : AuditRow → Option AuditRow → AuditRow
later_of r none = r
later_of r (some s) = if audited_before r s then s else r

-- `LIMIT 1` of that order
unfoldable pub latest : List AuditRow → Option AuditRow
latest [] = none
latest (r ∷ rows) = some (later_of r (latest rows))

abbrev pub of_event : ℕ → String → EventRow → Bool
of_event chain contract e = e.chain_id == chain && str_eq e.contract_address (lower contract)

abbrev same_type : EventType → EventType → Bool
same_type claim_submitted claim_submitted = true
same_type claim_assessed claim_assessed = true
same_type _ _ = false

abbrev pub is_type : EventType → EventRow → Bool
is_type t e = same_type t e.event_type

abbrev pub has_status : ℕ → ClaimRow → Bool
has_status n r = r.status == n

unfoldable pub status_counts : List ClaimRow → StatusCounts
status_counts rows = record {
  submitted = count_where (has_status 0) rows;
  under_review = count_where (has_status 1) rows;
  approved = count_where (has_status 2) rows;
  rejected = count_where (has_status 3) rows;
  flagged = count_where (has_status 4) rows;
}

-- Events of one block and log index, whose order the statement leaves open, are in that of their
-- identifiers.
abbrev pub snapshot_of :
    (String → String → Bool) → ℕ → String → ℕ → Index → List AuditRow → OperationsSnapshot
snapshot_of text_lt chain contract limit s audits =
    let claims = keep (of_contract chain contract) s.claims in
    let events = keep (of_event chain contract) s.events in
    record {
      checkpoint = find (is_deployment chain contract) s.checkpoints;
      total_claims = length claims;
      total_events = length events;
      submitted_events = count_where (is_type claim_submitted) events;
      assessed_events = count_where (is_type claim_assessed) events;
      claim_status_counts = status_counts claims;
      recent_events = take limit (newest_first text_lt events);
      last_reconciliation = latest (keep (is_audit chain contract) audits);
    }

unfoldable pub get_operations_snapshot :
    (String → String → Bool)
    → ℕ
    → String
    → ℕ
    → Index
    → List AuditRow
    → Result String OperationsSnapshot
unfolding latest status_counts
get_operations_snapshot text_lt chain contract limit s audits =
    if not (leb 1 limit && leb limit 100)
    then err "recent_event_limit must be between 1 and 100"
    else ok (snapshot_of text_lt chain contract limit s audits)
