-- ===== src/Scoring/Tests/Tables.antt =====
-- Concrete claims in the tables of fingerprints and features.
use decentralized_claims_reg.Prelude.{
  ℕ, String, false, none, some, List, [], ◌∷◌, ◌≡◌, refl, ◌⊎◌, arith,
}
use decentralized_claims_reg.Prelude.Lists.{find, update, keep, count_where}
use decentralized_claims_reg.Prelude.Text.{append, eq_str, lower}
use decentralized_claims_reg.Postgres.{ok, err}
use decentralized_claims_reg.Listener.Events.{Message}
use decentralized_claims_reg.Scoring.Duplicates.{
  Claim, DuplicateCheck, DuplicateMatch, incident, put, search, same_incident, order, has_claim,
  Fingerprint, check, fingerprint_of, record_and_find_duplicates, get_duplicate_check_for_claim,
}
use decentralized_claims_reg.Scoring.Duplicates.Symmetry.{
  Lists, Twins, record_and_find_duplicates-read, check-Twins,
}
use decentralized_claims_reg.Scoring.Features.{
  ClaimFeatureSnapshot, Error, record_feature_snapshot, snapshot, feature_input, policy_fingerprint,
  same_insurer, process_features,
}
use decentralized_claims_reg.Scoring.Features.History.{
  process_features-replay, Numbered, process_all, process_all-Numbered,
}
use decentralized_claims_reg.Scoring.Tests.{event, claim_of, detector, features, first, here}

abbrev later : Message
later = event 2 "0xcd"

abbrev alpha : Claim
alpha = claim_of "alpha"

abbrev beta : Claim
beta = claim_of "beta"

abbrev row : ℕ → String → String → Fingerprint
row claim transaction insurer = record {
  event_id = append "1:" (append transaction ":0");
  chain_id = 1;
  contract_address = "0xc0";
  claim_id = claim;
  insurer_id = insurer;
  fingerprint_version = "incident-hmac-sha256-v1";
  incident_fingerprint = "collisionde";
}

abbrev result : String → List DuplicateMatch → DuplicateCheck
result insurer matches = record {
  insurer_id = insurer;
  fingerprint_version = "incident-hmac-sha256-v1";
  matches = matches;
}

abbrev between : List Fingerprint
between = row 1 "0xab" "alpha" ∷ []

abbrev after : List Fingerprint
after = row 1 "0xab" "alpha" ∷ row 2 "0xcd" "beta" ∷ []

abbrev listed : List DuplicateMatch
listed = record { claim_id = 1; insurer_id = "alpha" } ∷ []

first_checked : check detector first alpha [] ≡ (ok (result "alpha" []), between)
unfolding check record_and_find_duplicates put search same_incident fingerprint_of incident lower
    find update keep order has_claim
first_checked = refl

later_checked : check detector later beta between ≡ (ok (result "beta" listed), after)
unfolding check record_and_find_duplicates put search same_incident fingerprint_of incident lower
    find update keep order has_claim
later_checked = refl

twins : Twins (fingerprint_of detector first alpha) (fingerprint_of detector later beta)
unfolding fingerprint_of incident
twins = record {
  chain = refl;
  contract = refl;
  version = refl;
  incident = refl;
  claims = λ e. ground arith;
  insurers = λ e. ground (arith, eq_str "alpha" "beta" e);
}

check-Twins_example :
    Lists (result "beta" listed) 1 "alpha"
    × (k : DuplicateCheck) × (get_duplicate_check_for_claim 1 "0xC0" 1 after ≡ (ok (some k), after))
    × Lists k 2 "beta"
check-Twins_example =
    check-Twins detector first later alpha beta [] between after (result "alpha" [])
      (result "beta" listed) twins first_checked later_checked

record_and_find_duplicates-read_example :
    get_duplicate_check_for_claim 1 "0xC0" 2 after ≡ (ok (some (result "beta" listed)), after)
unfolding check fingerprint_of
record_and_find_duplicates-read_example =
    record_and_find_duplicates-read (fingerprint_of detector later beta) between
      (result "beta" listed) after later_checked

abbrev snapshots : List ClaimFeatureSnapshot
snapshots =
    process_all features
      ((first, alpha, result "alpha" []) ∷ (later, alpha, result "alpha" listed) ∷ []) []

process_all-Numbered_example : Numbered [] snapshots
unfolding Numbered
process_all-Numbered_example =
    process_all-Numbered features
      ((first, alpha, result "alpha" []) ∷ (later, alpha, result "alpha" listed) ∷ []) [] tt

abbrev snapshot_first : ClaimFeatureSnapshot
snapshot_first = record {
  input = record {
    event_id = "1:0xab:0";
    chain_id = 1;
    contract_address = "0xc0";
    claim_id = 1;
    feature_version = "claim-processing-v1";
    insurer_id = "alpha";
    policy_fingerprint_version = "policy-hmac-sha256-v1";
    policy_reference_fingerprint = "alphap1";
    event_timestamp = 864000;
    incident_date = 7;
    claim_type = "collision";
    claim_amount_usd = "1200.0";
    policy_premium_usd = "400.0";
    claim_to_premium_ratio = "3.0";
    vehicle_age = 3;
    vehicle_type = "car";
    country = "de";
    region_type = "urban";
    third_party_injury_flag = false;
    total_loss_flag = false;
    report_delay_days = 3;
    cross_insurer_duplicate_match_count = here;
  };
  prior_policy_claim_count = here;
  prior_insurer_claim_count = here;
  prior_insurer_average_claim_amount_usd = none;
  claim_to_prior_insurer_average_ratio = none;
}

processed_first :
    process_features features first alpha (result "alpha" []) []
    ≡ (ok snapshot_first, snapshot_first ∷ [])
unfolding process_features record_feature_snapshot snapshot feature_input policy_fingerprint lower
    find keep count_where same_insurer
processed_first = refl

process_features-replay_example :
    let rows = snapshot_first ∷ snapshot_first ∷ [] in
    ((x : Error) × (process_features features first beta (result "beta" listed) rows
        ≡ (err x, rows)))
    ⊎ (process_features features first beta (result "beta" listed) rows ≡ (ok snapshot_first, rows))
process_features-replay_example =
    process_features-replay features features first alpha beta (result "alpha" [])
      (result "beta" listed) [] (snapshot_first ∷ []) (snapshot_first ∷ []) snapshot_first
      processed_first
