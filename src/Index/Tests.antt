-- ===== src/Index/Tests.antt =====
-- Concrete logs in the claim index.
use decentralized_claims_reg.Prelude.{
  ℕ, true, none, some, List, [], ◌∷◌, ◌≡◌, ◌≢◌, refl, arith, ◌≤◌, ◌*◌,
}
use decentralized_claims_reg.Prelude.Text.{lower, decimal, eq_str}
use decentralized_claims_reg.Prelude.Lists.{Grows, AllPairs, keep, take}
use decentralized_claims_reg.Postgres.{ok}
use decentralized_claims_reg.Index.Tables.{
  Index, Log, EventRow, claim_submitted, claim_assessed, claim_index_event_id,
}
use decentralized_claims_reg.Index.Write.{
  index_claim_submitted, upsert_claim, submitted_row, is_claim, index_claim_assessed, event_of,
}
use decentralized_claims_reg.Index.Order.{
  Write, submits, assesses, write, write_all, Later, Any, write_all-Later, SamePosition,
  index_claim_assessed_comm,
}
use decentralized_claims_reg.Index.Lookup.{IsSubmitted, get_claim-index_claim_submitted}
use decentralized_claims_reg.Index.Claims.{
  IndexedClaim, get_claim, total, list_claims, read_pages, claims_from_rows, highest_first,
  of_contract, read_pages-list_claims,
}
use decentralized_claims_reg.Index.Search.{
  Query, search_events, listing, selects, position_lt, newest_first, place,
}
use decentralized_claims_reg.Index.Audit.{IsExtended, write_all-IsExtended}
use decentralized_claims_reg.Index.Pages.{Continues, search_events-Continues}
use decentralized_claims_reg.Index.Collation.{by_code, by_code-IsCollation}

abbrev log : ℕ → ℕ → Log
log block index = record {
  chain_id = 1;
  contract_address = "0xC0";
  claim_id = 3;
  block_number = block;
  block_hash = "0xb";
  transaction_hash = "0xA1";
  log_index = index;
  event_timestamp = 50;
}

abbrev nothing : Index
nothing = record { events = []; claims = []; checkpoints = [] }

abbrev first_writes : List (ℕ × Write)
first_writes = (7, submits (log 10 0) "0xCl" "0xHa" "ipfs://a") ∷ []

abbrev indexed : Index
indexed = write_all nothing first_writes

-- The submission is replayed after an assessment.
abbrev replay : List (ℕ × Write)
replay = (8, assesses (log 12 1) 2 700) ∷ (9, submits (log 10 0) "0xCl" "0xHa" "ipfs://a") ∷ []

write_all-Later_example : Grows Later Any indexed.claims (write_all indexed replay).claims
write_all-Later_example = write_all-Later indexed replay

apart_logs : ¬ SamePosition (log 12 1) (log 12 4)
apart_logs h = omega (arith, h.1)

index_claim_assessed_comm_example :
    (index_claim_assessed
      (log 12 4)
      3
      20
      9
      (index_claim_assessed (log 12 1) 2 700 9 indexed).1).1.claims
    ≡ (index_claim_assessed
        (log 12 1)
        2
        700
        9
        (index_claim_assessed (log 12 4) 3 20 9 indexed).1).1.claims
index_claim_assessed_comm_example =
    index_claim_assessed_comm indexed (log 12 1) (log 12 4) 2 700 3 20 9 apart_logs

abbrev here : ℕ
here = 1

abbrev there : ℕ
there = 2

abbrev query : Query
query = record {
  chain_id = here;
  contract_address = "0xC0";
  claim_id = none;
  transaction_hash = none;
  event_type = none;
  status = none;
  from_block = none;
  to_block = none;
  before = none;
  limit = 1;
}

abbrev newest : EventRow
newest = event_of (log 12 1) claim_assessed 2 700 8

abbrev oldest : EventRow
oldest = event_of (log 10 0) claim_submitted 0 0 7

abbrev two_events : Index
two_events = record nothing { events = oldest ∷ newest ∷ [] }

two_events_apart : AllPairs (λ r t. r.event_id ≢ t.event_id) two_events.events
unfolding event_of claim_index_event_id decimal lower
two_events_apart = (((λ e. ground (arith, eq_str "1:0xa1:0" "1:0xa1:1" e)), tt), (tt, tt))

first_page :
    search_events by_code query two_events ≡ ok (record { events = newest ∷ []; has_more = true })
unfolding search_events listing selects position_lt newest_first place keep take by_code event_of
    claim_index_event_id decimal lower
first_page = refl

search_events-Continues_example :
    Continues by_code by_code-IsCollation query two_events
      (record { events = newest ∷ []; has_more = true })
search_events-Continues_example =
    search_events-Continues by_code by_code-IsCollation query two_events two_events_apart
      (record { events = newest ∷ []; has_more = true }) first_page

write_all-IsExtended_example : IsExtended indexed.events (write_all indexed replay).events
write_all-IsExtended_example =
    write_all-IsExtended indexed replay (write_all-IsExtended nothing first_writes tt).unique

-- Two claims of one contract and one of another, in pages of one claim.
abbrev two_claims : Index
two_claims = write_all indexed (
    (10, submits (record (log 13 0) { claim_id = 9 }) "0xCl" "0xHb" "ipfs://b")
    ∷ (11, submits (record (log 14 0) { contract_address = "0xC1" }) "0xCl" "0xHc" "ipfs://c")
    ∷ [])

room_for_two : total (list_claims here "0xC0" 1 here two_claims) ≤ 2 * here
unfolding list_claims write_all write index_claim_submitted upsert_claim submitted_row is_claim
    lower keep
room_for_two = omega arith

read_pages-list_claims_example :
    read_pages here "0xC0" here 2 two_claims
    ≡ claims_from_rows (highest_first (keep (of_contract here "0xC0") two_claims.claims))
read_pages-list_claims_example = read_pages-list_claims here "0xC0" here two_claims 2 room_for_two

get_claim-index_claim_submitted_example :
    (c : IndexedClaim) × (get_claim here "0xC0" 3
        (index_claim_submitted (log 15 0) "0xCl" "0xHA" "ipfs://a" 12 indexed).1
      ≡ some c)
    × IsSubmitted (log 15 0) "0xCl" "0xHA" "ipfs://a" 12 c
get_claim-index_claim_submitted_example =
    get_claim-index_claim_submitted (log 15 0) "0xCl" "0xHA" "ipfs://a" 12 indexed
