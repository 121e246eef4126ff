-- ===== src/Scoring/Features.antt =====
-- feature_processor.py and feature_repository.py, over the table `claim_feature_snapshots` of
-- 001_initial_claim_storage.sql.
pub mod History
use decentralized_claims_reg.Prelude.{
  ℕ, String, Bool, Option, none, some, List, [], ◌∷◌, ◌++◌, map, ◌==◌, ◌&&◌, ◌-◌, ◌/◌, ltb, not,
  if◌then◌else◌,
}
use decentralized_claims_reg.Prelude.Lists.{find, keep, length, count_where}
use decentralized_claims_reg.Prelude.Text.{str_eq, lower}
use decentralized_claims_reg.Postgres.{
  Result, Action, pure, raise, gets, modify, or_raise, lift, transaction, when◌run◌otherwise◌,
  ◌>>=◌, ◌>>◌,
}
use decentralized_claims_reg.Listener.Events.{Message}
use decentralized_claims_reg.Scoring.Duplicates.{Claim, DuplicateCheck}

pub record ClaimFeatureInput : Type 0 where
  pub event_id : String
  pub chain_id : ℕ
  pub contract_address : String
  pub claim_id : ℕ
  pub feature_version : String
  pub insurer_id : String
  pub policy_fingerprint_version : String
  pub policy_reference_fingerprint : String
  pub event_timestamp : ℕ
  pub incident_date : ℕ
  pub claim_type : String
  pub claim_amount_usd : String
  pub policy_premium_usd : String
  pub claim_to_premium_ratio : String
  pub vehicle_age : ℕ
  pub vehicle_type : String
  pub country : String
  pub region_type : String
  pub third_party_injury_flag : Bool
  pub total_loss_flag : Bool
  pub report_delay_days : ℕ
  pub cross_insurer_duplicate_match_count : ℕ

pub record ClaimFeatureSnapshot : Type 0 where
  pub input : ClaimFeatureInput
  pub open input use *
  pub prior_policy_claim_count : ℕ
  pub prior_insurer_claim_count : ℕ
  pub prior_insurer_average_claim_amount_usd : Option String
  pub claim_to_prior_insurer_average_ratio : Option String

pub data Error : Type 0 where
  insurer_mismatch timestamp_out_of_range incident_after_event not_a_ratio : Error
  storage_unavailable : Error

-- The identity of a policy that enters its fingerprint, in normal form.
pub record PolicyIdentity : Type 0 where
  pub insurer_id : String
  pub policy_reference : String

-- What the processor takes from Python and PostgreSQL: the division and the average of floats, the
-- day of a timestamp, the case folding and splitting of `_normalized_identifier`, and the keyed
-- digest of the canonical JSON text.
pub record Features : Type 0 where
  pub divide : String → String → Option String
  pub average : List String → String
  pub day_of : ℕ → Option ℕ
  pub normalized_identifier : String → String
  pub digest : PolicyIdentity → String

abbrev pub Tx : Type 0 → Type 0
Tx = Action (List ClaimFeatureSnapshot) Error

abbrev pub cursor : {A : Type 0} → Tx A → Tx A
cursor = transaction λ e. e

abbrev pub by_event : String → ClaimFeatureSnapshot → Bool
by_event event r = str_eq r.event_id event

unfoldable pub get_feature_snapshot : String → Tx (Option ClaimFeatureSnapshot)
get_feature_snapshot event = cursor (gets (find (by_event event)))

-- The insurer's earlier snapshots, over which the history is computed.
unfoldable pub same_insurer : ClaimFeatureInput → ClaimFeatureSnapshot → Bool
same_insurer i r =
    r.chain_id == i.chain_id
    && str_eq r.contract_address (lower i.contract_address)
    && str_eq r.insurer_id i.insurer_id

abbrev same_policy : ClaimFeatureInput → ClaimFeatureSnapshot → Bool
same_policy i r = str_eq r.policy_reference_fingerprint i.policy_reference_fingerprint

-- `AVG` over no row is `NULL`.
abbrev average_amount : Features → List ClaimFeatureSnapshot → Option String
average_amount v [] = none
average_amount v (r ∷ rest) =
    some (v.average (r.claim_amount_usd ∷ map (λ x. x.claim_amount_usd) rest))

abbrev ratio_to : Features → String → Option String → Option String
ratio_to v amount none = none
ratio_to v amount (some average) = v.divide amount average

unfoldable pub snapshot :
    Features → ClaimFeatureInput → List ClaimFeatureSnapshot → ClaimFeatureSnapshot
snapshot v i rows =
    let history = keep (same_insurer i) rows in
    record {
      input = record i { contract_address = lower i.contract_address };
      prior_policy_claim_count = count_where (same_policy i) history;
      prior_insurer_claim_count = length history;
      prior_insurer_average_claim_amount_usd = average_amount v history;
      claim_to_prior_insurer_average_ratio =
          ratio_to v i.claim_amount_usd (average_amount v history);
    }

-- The key of a claim, which is unique in the table.
abbrev pub of_claim : ClaimFeatureInput → ClaimFeatureSnapshot → Bool
of_claim i r =
    r.chain_id == i.chain_id
    && str_eq r.contract_address (lower i.contract_address)
    && r.claim_id == i.claim_id

abbrev insert_snapshot :
    Option ClaimFeatureSnapshot → ClaimFeatureSnapshot → Tx ClaimFeatureSnapshot
insert_snapshot none r = do modify (λ rows. rows ++ r ∷ []); pure r
insert_snapshot (some other) r = raise storage_unavailable

-- `ON CONFLICT (event_id) DO NOTHING`, and then the row of the event
abbrev recall_or_insert :
    Features → Option ClaimFeatureSnapshot → ClaimFeatureInput → Tx ClaimFeatureSnapshot
recall_or_insert v (some old) i = pure old
recall_or_insert v none i = do
  taken ← gets (find (of_claim i))
  new ← gets (snapshot v i)
  insert_snapshot taken new

-- The table's checks on signs are not modelled; with them no average is zero.
unfoldable pub record_feature_snapshot : Features → ClaimFeatureInput → Tx ClaimFeatureSnapshot
record_feature_snapshot v i =
    cursor do old ← gets (find (by_event i.event_id)); recall_or_insert v old i

-- `_policy_fingerprint`
unfoldable pub policy_fingerprint : Features → Claim → String
policy_fingerprint v c = v.digest (record {
  insurer_id = v.normalized_identifier c.insurer_id;
  policy_reference = v.normalized_identifier c.policy_reference;
})

unfoldable pub feature_input :
    Features → Message → Claim → DuplicateCheck → ℕ → String → ClaimFeatureInput
unfolding policy_fingerprint
feature_input v e c d reported ratio = record {
  event_id = e.event_id;
  chain_id = e.source.chain_id;
  contract_address = lower e.source.contract_address;
  claim_id = e.source.claim_id;
  feature_version = "claim-processing-v1";
  insurer_id = c.insurer_id;
  policy_fingerprint_version = "policy-hmac-sha256-v1";
  policy_reference_fingerprint = policy_fingerprint v c;
  event_timestamp = e.source.event_timestamp;
  incident_date = c.incident_date;
  claim_type = c.claim_type;
  claim_amount_usd = c.claim_amount_usd;
  policy_premium_usd = c.policy_premium_usd;
  claim_to_premium_ratio = ratio;
  vehicle_age = c.vehicle_age;
  vehicle_type = c.vehicle_type;
  country = c.country;
  region_type = c.region_type;
  third_party_injury_flag = c.third_party_injury_flag;
  total_loss_flag = c.total_loss_flag;
  report_delay_days = reported - c.incident_date;
  cross_insurer_duplicate_match_count = length d.matches;
}

-- `ClaimFeatureProcessor.process`
unfoldable pub process_features :
    Features → Message → Claim → DuplicateCheck → Tx ClaimFeatureSnapshot
unfolding feature_input
process_features v e c d =
    when not (str_eq d.insurer_id c.insurer_id) run raise insurer_mismatch otherwise do
      reported ← or_raise (v.day_of e.source.event_timestamp) timestamp_out_of_range
      when ltb reported c.incident_date run raise incident_after_event otherwise do
        ratio ← or_raise (v.divide c.claim_amount_usd c.policy_premium_usd) not_a_ratio
        record_feature_snapshot v (feature_input v e c d reported ratio)
