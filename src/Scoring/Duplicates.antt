-- ===== src/Scoring/Duplicates.antt =====
-- packages/duplicates/detector.py and duplicate_repository.py, over the table
-- `claim_incident_fingerprints` of 001_initial_claim_storage.sql. The advisory lock puts
-- transactions with one fingerprint in an order; a history here is such an order.
pub mod Rows
pub mod Symmetry
use decentralized_claims_reg.Prelude.{
  ℕ, String, Bool, Option, none, some, List, [], ◌∷◌, ◌++◌, map, ◌==◌, ◌&&◌, not, leb,
  if◌then◌else◌,
}
use decentralized_claims_reg.Prelude.Lists.{find, update, keep}
use decentralized_claims_reg.Prelude.Text.{str_eq, lower}
use decentralized_claims_reg.Postgres.{Action, pure, raise, gets, modify, transaction, ◌>>=◌, ◌>>◌}
use decentralized_claims_reg.Listener.Events.{Message}
use decentralized_claims_reg.Scoring.Assessments.{Error, storage_unavailable}

-- What the pipeline reads of a `StoredClaimDocument`; a date counts days, and a float stands as
-- its text.
pub record Claim : Type 0 where
  pub insurer_id : String
  pub policy_reference : String
  pub claim_type : String
  pub incident_date : ℕ
  pub claim_amount_usd : String
  pub policy_premium_usd : String
  pub vehicle_age : ℕ
  pub vehicle_type : String
  pub country : String
  pub region_type : String
  pub third_party_injury_flag : Bool
  pub total_loss_flag : Bool

-- The arguments of `record_and_find_duplicates`.
pub record Fingerprint : Type 0 where
  pub event_id : String
  pub chain_id : ℕ
  pub contract_address : String
  pub claim_id : ℕ
  pub insurer_id : String
  pub fingerprint_version : String
  pub incident_fingerprint : String

pub record DuplicateMatch : Type 0 where
  pub claim_id : ℕ
  pub insurer_id : String

pub record DuplicateCheck : Type 0 where
  pub insurer_id : String
  pub fingerprint_version : String
  pub matches : List DuplicateMatch

abbrev pub Tx : Type 0 → Type 0
Tx = Action (List Fingerprint) Error

abbrev pub cursor : {A : Type 0} → Tx A → Tx A
cursor = transaction λ e. e

-- The primary key.
unfoldable pub has_claim : ℕ → String → ℕ → Fingerprint → Bool
has_claim chain contract claim r =
    r.chain_id == chain && str_eq r.contract_address contract && r.claim_id == claim

-- The row that is written: its contract is folded.
abbrev pub stored : Fingerprint → Fingerprint
stored q = record q { contract_address = lower q.contract_address }

-- Another claim's row with the event, which the unique column refuses.
abbrev pub event_taken : Fingerprint → Fingerprint → Bool
event_taken q r =
    str_eq r.event_id q.event_id
    && not (has_claim q.chain_id (lower q.contract_address) q.claim_id r)

-- `ON CONFLICT (chain_id, contract_address, claim_id) DO UPDATE SET …`
abbrev pub replace_row : Fingerprint → Fingerprint → Fingerprint
replace_row q r = record r {
  event_id = q.event_id;
  insurer_id = q.insurer_id;
  fingerprint_version = q.fingerprint_version;
  incident_fingerprint = q.incident_fingerprint;
}

abbrev put_found : Option Fingerprint → Fingerprint → List Fingerprint → List Fingerprint
put_found none q rows = rows ++ stored q ∷ []
put_found (some old) q rows =
    update (has_claim q.chain_id (lower q.contract_address) q.claim_id) (replace_row q) rows

unfoldable pub put : Fingerprint → List Fingerprint → List Fingerprint
put q rows =
    put_found (find (has_claim q.chain_id (lower q.contract_address) q.claim_id) rows) q rows

-- The `WHERE` of both searches.
unfoldable pub same_incident : ℕ → String → String → String → ℕ → String → Fingerprint → Bool
same_incident chain contract version fingerprint claim insurer r =
    r.chain_id == chain
    && str_eq r.contract_address contract
    && str_eq r.fingerprint_version version
    && str_eq r.incident_fingerprint fingerprint
    && not (r.claim_id == claim)
    && not (str_eq r.insurer_id insurer)

-- `ORDER BY claim_id`
unfoldable pub place : Fingerprint → List Fingerprint → List Fingerprint
place r [] = r ∷ []
place r (s ∷ rest) =
    let further = place r rest in if leb r.claim_id s.claim_id then r ∷ s ∷ rest else s ∷ further

unfoldable pub order : List Fingerprint → List Fingerprint
unfolding place
order [] = []
order (r ∷ rest) = place r (order rest)

abbrev pub match_of : Fingerprint → DuplicateMatch
match_of r = record { claim_id = r.claim_id; insurer_id = r.insurer_id }

unfoldable pub search :
    ℕ → String → String → String → ℕ → String → List Fingerprint → List DuplicateMatch
unfolding order
search chain contract version fingerprint claim insurer rows =
    map match_of
      (order (keep (same_incident chain contract version fingerprint claim insurer) rows))

abbrev insert_or_update : Option Fingerprint → Fingerprint → Tx (Unit {0})
insert_or_update none q = modify (put q)
insert_or_update (some other) q = raise storage_unavailable

unfoldable pub record_and_find_duplicates : Fingerprint → Tx DuplicateCheck
record_and_find_duplicates q = cursor do
  taken ← gets (find (event_taken q))
  insert_or_update taken q
  matches ← gets (
      search q.chain_id (lower q.contract_address) q.fingerprint_version q.incident_fingerprint
        q.claim_id q.insurer_id)
  pure (record {
    insurer_id = q.insurer_id;
    fingerprint_version = q.fingerprint_version;
    matches = matches;
  })

abbrev rebuild : ℕ → Option Fingerprint → List Fingerprint → Option DuplicateCheck
rebuild claim none rows = none
rebuild claim (some r) rows = some (record {
  insurer_id = r.insurer_id;
  fingerprint_version = r.fingerprint_version;
  matches =
      search r.chain_id r.contract_address r.fingerprint_version r.incident_fingerprint claim
        r.insurer_id rows;
})

unfoldable pub get_duplicate_check_for_claim : ℕ → String → ℕ → Tx (Option DuplicateCheck)
get_duplicate_check_for_claim chain contract claim =
    cursor (gets (λ rows. rebuild claim (find (has_claim chain (lower contract) claim) rows) rows))

-- The fields of an incident that enter its fingerprint, in normal form.
pub record Incident : Type 0 where
  pub claim_amount_cents : ℕ
  pub claim_type : String
  pub country : String
  pub incident_date : ℕ
  pub region_type : String
  pub third_party_injury : Bool
  pub total_loss : Bool
  pub vehicle_age : ℕ
  pub vehicle_type : String

abbrev pub fingerprint_version : String
fingerprint_version = "incident-hmac-sha256-v1"

-- What the detector takes from Python: the case folding and splitting of `_normalized_text`, the
-- decimal rounding of `_amount_in_cents`, and the keyed digest of the canonical JSON text.
pub record Detector : Type 0 where
  pub normalized_text : String → String
  pub amount_in_cents : String → ℕ
  pub digest : Incident → String

unfoldable pub incident : Detector → Claim → Incident
incident v c = record {
  claim_amount_cents = v.amount_in_cents c.claim_amount_usd;
  claim_type = v.normalized_text c.claim_type;
  country = v.normalized_text c.country;
  incident_date = c.incident_date;
  region_type = v.normalized_text c.region_type;
  third_party_injury = c.third_party_injury_flag;
  total_loss = c.total_loss_flag;
  vehicle_age = c.vehicle_age;
  vehicle_type = v.normalized_text c.vehicle_type;
}

unfoldable pub fingerprint_of : Detector → Message → Claim → Fingerprint
fingerprint_of v e c = record {
  event_id = e.event_id;
  chain_id = e.source.chain_id;
  contract_address = e.source.contract_address;
  claim_id = e.source.claim_id;
  insurer_id = c.insurer_id;
  fingerprint_version = fingerprint_version;
  incident_fingerprint = v.digest (incident v c);
}

-- `CrossInsurerDuplicateDetector.check`
unfoldable pub check : Detector → Message → Claim → Tx DuplicateCheck
unfolding fingerprint_of
check v e c = record_and_find_duplicates (fingerprint_of v e c)
