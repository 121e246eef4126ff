-- ===== src/Operations/Tests.antt =====
-- Two events of the claim index, shown on pages of one.
use decentralized_claims_reg.Prelude.{
  ℕ, String, Option, true, none, some, List, [], ◌∷◌, ◌≡◌, ◌≢◌, refl, arith, if◌then◌else◌,
}
use decentralized_claims_reg.Prelude.Text.{lower, decimal, str_eq, eq_str, text_length, repeated}
use decentralized_claims_reg.Prelude.Lists.{AllPairs, All, keep, take}
use decentralized_claims_reg.Postgres.{ok}
use decentralized_claims_reg.Index.Tables.{
  Index, Log, EventRow, claim_submitted, claim_assessed, claim_index_event_id,
}
use decentralized_claims_reg.Index.Write.{event_of, submitted_row}
use decentralized_claims_reg.Index.Search.{
  search_events, listing, selects, position_lt, newest_first, place,
}
use decentralized_claims_reg.Index.Collation.{by_code, by_code-IsCollation}
use decentralized_claims_reg.Scoring.Decode.{Json, text}
use decentralized_claims_reg.Operations.Search.{
  Tools, Deployment, Filters, PageResponse, event_response, event_responses, last_event,
  cursor_fields, encode_event_cursor, decode_event_cursor, page_response, search,
}
use decentralized_claims_reg.Index.Snapshot.{AuditRow, Audit, audit_row, record_reconciliation}
use decentralized_claims_reg.Operations.Health.{Thresholds, OperationsResponse, snapshot}
use decentralized_claims_reg.Operations.Reports.{Reports, snapshot-Reports}
use decentralized_claims_reg.Operations.Audits.{with_audit, snapshot-record_reconciliation}
use decentralized_claims_reg.Operations.Paging.{IsReadable, Follows, search-Follows}

abbrev log : ℕ → ℕ → Log
log block index = record {
  chain_id = 1;
  contract_address = "0xC0";
  claim_id = 3;
  block_number = block;
  block_hash = "0xb";
  transaction_hash = "0xA1";
  log_index = index;
  event_timestamp = 50;
}

abbrev newest : EventRow
newest = event_of (log 12 1) claim_assessed 2 700 8

abbrev oldest : EventRow
oldest = event_of (log 10 0) claim_submitted 0 0 7

abbrev two_events : Index
two_events = record { events = oldest ∷ newest ∷ []; claims = []; checkpoints = [] }

-- A JSON of four letters for each of the two events, and a base64 that leaves it as it is.
abbrev written : List Json → String
written (a ∷ b ∷ c ∷ text i ∷ []) = if str_eq i newest.event_id then "newe" else "olde"
written _ = "none"

abbrev parsed : String → Option (List Json)
parsed payload =
    if str_eq payload "newe"
    then some (cursor_fields newest)
    else if str_eq payload "olde"
    then some (cursor_fields oldest)
    else none

abbrev letters : Tools
letters = record {
  urlsafe_b64encode = λ payload. payload;
  without_padding = λ encoded. encoded;
  b64decode = λ cursor. some cursor;
  dumps = written;
  loads = parsed;
}

abbrev here : Deployment
here = record { chain_id = 1; address = "0xC0" }

abbrev all_events : Filters
all_events = record {
  claim_id = none;
  transaction_hash = none;
  event_type = none;
  status = none;
  from_block = none;
  to_block = none;
  cursor = none;
  limit = 1;
}

abbrev first_page : PageResponse
first_page = record { items = event_response newest ∷ []; page_size = 1; next_cursor = some "newe" }

unique_events : AllPairs (λ r t. r.event_id ≢ t.event_id) two_events.events
unfolding event_of claim_index_event_id decimal lower
unique_events = (((λ e. ground (arith, eq_str "1:0xa1:0" "1:0xa1:1" e)), tt), (tt, tt))

IsReadable-events : All (IsReadable letters) two_events.events
unfolding event_of claim_index_event_id decimal lower encode_event_cursor text_length repeated
IsReadable-events = (
  record { named = refl; decoded = refl; loaded = refl },
  (record { named = refl; decoded = refl; loaded = refl }, tt),
)

shown : search letters by_code here all_events two_events ≡ ok first_page
unfolding search page_response decode_event_cursor event_responses last_event encode_event_cursor
    search_events listing selects position_lt newest_first place keep take by_code event_of
    claim_index_event_id decimal lower
shown = refl

search-Follows_example :
    Follows letters by_code by_code-IsCollation here all_events two_events first_page "newe"
search-Follows_example =
    search-Follows letters by_code by_code-IsCollation here all_events two_events first_page "newe"
      unique_events IsReadable-events shown refl

-- A claim, a checkpoint five blocks behind a head of thirty, and one audit.
abbrev indexed : Index
indexed = record {
  events = oldest ∷ newest ∷ [];
  claims = submitted_row (log 10 0) "0xCl" "0xHa" "ipfs://a" 7 ∷ [];
  checkpoints =
      record {
        chain_id = 1;
        contract_address = lower "0xC0";
        last_processed_block = 13;
        updated_at = 8;
      }
      ∷ [];
}

abbrev thresholds : Thresholds
thresholds = record { confirmation_blocks = 12; stale_after_seconds = 120; recent_event_limit = 20 }

abbrev audit : Audit
audit = record {
  indexed_through_block = 13;
  chain_claims = 1;
  indexed_claims = 1;
  missing_claim_ids = [];
  unexpected_claim_ids = [];
  mismatched_claim_ids = [];
  consistent = true;
  duration_ms = 4;
}

abbrev audits : List AuditRow
audits = audit_row 1 "0xC0" audit 1 8 ∷ []

snapshot-Reports_example :
    (r : OperationsResponse) × (snapshot by_code here thresholds indexed audits 9 (some 30) ≡ ok r)
    × Reports by_code here thresholds indexed audits 9 (some 30) r
unfolding submitted_row
snapshot-Reports_example =
    snapshot-Reports by_code here thresholds indexed audits 9 (some 30) refl (omega arith, tt)

snapshot-record_reconciliation_example :
    snapshot by_code here thresholds indexed
      (record_reconciliation 1 "0xc0" audit 2 9 audits)
      10
      none
    ≡ with_audit
        (audit_row 1 "0xc0" audit 2 9)
        (snapshot by_code here thresholds indexed audits 10 none)
unfolding lower
snapshot-record_reconciliation_example =
    snapshot-record_reconciliation by_code here thresholds indexed audits 10 none 1 "0xc0" audit 2 9
      ((omega arith, omega arith), tt)
