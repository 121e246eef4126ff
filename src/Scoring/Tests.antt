-- ===== src/Scoring/Tests.antt =====
-- Concrete deliveries of one event.
pub mod Tables
use decentralized_claims_reg.Prelude.{
  ℕ, String, Bool, true, false, none, some, List, [], ◌∷◌, ◌≡◌, refl, sym, ap, ◌/◌, ◌⊎◌,
  if◌then◌else◌, arith,
}
use decentralized_claims_reg.Prelude.Lists.{take, get_elem?, find, update, keep, count_where}
use decentralized_claims_reg.Prelude.Text.{
  append, eq_str, str_eq, lower, decimal, starts_with, remove_prefix,
}
use decentralized_claims_reg.Index.Tables.{claim_index_event_id}
use decentralized_claims_reg.Postgres.{ok, err}
use decentralized_claims_reg.Listener.Events.{Message}
use decentralized_claims_reg.Scoring.Duplicates.{
  Claim, DuplicateCheck, DuplicateMatch, Detector, incident, put, search, same_incident, order,
  has_claim, Fingerprint, check, fingerprint_of, record_and_find_duplicates,
  get_duplicate_check_for_claim,
}
use decentralized_claims_reg.Scoring.Duplicates.Symmetry.{
  Lists, Twins, record_and_find_duplicates-read, check-Twins,
}
use decentralized_claims_reg.Scoring.Features.{
  Features, ClaimFeatureSnapshot, Error, record_feature_snapshot, snapshot, feature_input,
  policy_fingerprint, same_insurer, process_features,
}
use decentralized_claims_reg.Scoring.Features.History.{
  process_features-replay, Numbered, process_all, process_all-Numbered,
}
use decentralized_claims_reg.Scoring.Assessments.{FraudScore}
use decentralized_claims_reg.Scoring.World.{Services, Registry, insurer_principal, verified}
use decentralized_claims_reg.Scoring.Handle.{handle}
use decentralized_claims_reg.Scoring.Ends.{HandleEnds, handle_ends}
use decentralized_claims_reg.Scoring.Progress.{Grown}
use decentralized_claims_reg.Scoring.Decode.{
  Codec, Document, object, IsValid, fields_of, field, from_json_bytes, to_json_bytes,
}
use decentralized_claims_reg.Scoring.RoundTrip.{
  from_json_bytes-to_json_bytes, from_json_bytes-IsValid,
}
use decentralized_claims_reg.Scoring.Consumer.{
  Attempt, Consumer, Poll, next_message, timed_out, consume, process_next,
}
use decentralized_claims_reg.Scoring.Quarantine.{
  IsRejected, other_claimant, Passes, process_next-Passes,
}
use decentralized_claims_reg.Scoring.Settled.{IsSound, consume-IsSound, consume-Grown}
use decentralized_claims_reg.Scoring.Once.{IsLawful, IsOnce, consume-IsOnce}

abbrev pub event : ℕ → String → Message
event claim transaction = record {
  event_id = append "1:" (append transaction ":0");
  source = record {
    chain_id = 1;
    contract_address = "0xC0";
    claim_id = claim;
    block_number = 5;
    block_hash = "0xb5";
    transaction_hash = transaction;
    log_index = 0;
    event_timestamp = 864000;
  };
  claimant = "0xAb";
  claim_hash = "0xdoc";
  data_pointer = "ipfs://doc";
}

abbrev pub claim_of : String → Claim
claim_of insurer = record {
  insurer_id = insurer;
  policy_reference = "p1";
  claim_type = "collision";
  incident_date = 7;
  claim_amount_usd = "1200.0";
  policy_premium_usd = "400.0";
  vehicle_age = 3;
  vehicle_type = "car";
  country = "de";
  region_type = "urban";
  third_party_injury_flag = false;
  total_loss_flag = false;
}

abbrev pub detector : Detector
detector = record {
  normalized_text = λ t. t;
  amount_in_cents = λ _. 120000;
  digest = λ i. append i.claim_type i.country;
}

abbrev pub features : Features
features = record {
  divide = λ a b. some "3.0";
  average = λ _. "1200.0";
  day_of = λ t. some (t / 86400);
  normalized_identifier = λ t. t;
  digest = λ i. append i.insurer_id i.policy_reference;
}

-- A registry of one claim, which is assessed or not.
abbrev registry : Registry Bool
registry = record {
  get_claim = λ c i. ok (record {
    claim_id = i;
    claimant = "0xab";
    claim_hash = "0xdoc";
    data_pointer = "ipfs://doc";
    status = if c then 4 else 0;
    fraud_score = if c then 9000 else 0;
    submitted_at = 1;
    updated_at = 1;
  });
  assess_claim = λ c i s f. (
    ok (record { transaction_hash = "0xe1"; block_number = 9; status = s; fraud_score = f }),
    true,
  );
}

abbrev high : FraudScore
high = record {
  probability = "0.9";
  score_basis_points = 9000;
  threshold = "0.5";
  flagged = true;
  model_version = "v1";
  reasons = [];
}

abbrev services : Services Bool
services = record {
  download_pointer = λ p. ok "doc";
  keccak = λ p. p;
  validate_json = λ p. some (claim_of "alpha");
  verify_claim = λ c. verified (insurer_principal c.insurer_id "0xaB");
  score = λ c. ok high;
  detector = detector;
  features = features;
  registry = registry;
}

abbrev codec : Codec Document
codec = record { loads = some; dumps = object; is_blank = λ s. str_eq s "" }

abbrev attempt : Bool → ℕ → Attempt Bool
attempt taken now = record {
  now = now;
  services = services;
  moves = λ c. c;
  file_written = true;
  offset_committed = taken;
}

abbrev pub first : Message
first = event 1 "0xab"

abbrev second : Message
second = event 2 "0xcd"

abbrev partition : List Document
partition = object (fields_of codec first) ∷ object (fields_of codec first) ∷ []

abbrev pub here : ℕ
here = 0

abbrev start : Consumer Bool
start = record {
  world = record {
    assessments = [];
    fingerprints = [];
    snapshots = [];
    chain = false;
    writes = [];
    dead_letters = [];
  };
  offset = here;
}

-- The first commit is lost, so that the event is delivered again.
abbrev deliveries : List (Attempt Bool × Poll)
deliveries =
    (attempt false 1, next_message)
    ∷ (attempt true 2, timed_out)
    ∷ (attempt true 3, next_message)
    ∷ (attempt true 4, next_message)
    ∷ []

IsSound-start : IsSound codec partition start
unfolding take
IsSound-start = record { unique = tt; backed = tt; handled = tt }

consume-IsSound_example : IsSound codec partition (consume codec partition deliveries start)
consume-IsSound_example = consume-IsSound codec partition deliveries start IsSound-start

consume-Grown_example :
    Grown
      (consume codec partition deliveries start).world.assessments
      (consume codec partition deliveries
        (consume codec partition deliveries start)).world.assessments
consume-Grown_example =
    consume-Grown codec partition deliveries (consume codec partition deliveries start)
      (consume-IsSound codec partition deliveries start IsSound-start)

abbrev Assessed : Bool → ℕ → Type 0
Assessed c i = c ≡ true

attempt-IsLawful : (taken : Bool) (now : ℕ) → IsLawful Assessed (attempt taken now)
attempt-IsLawful taken now = record {
  reads = λ c i x assessed read submitted. ground arith;
  assesses = λ c i s f x k done. sym (ap (λ out. out.1) done);
  keeps = λ c i s f j assessed. refl;
  moves_on = λ c j assessed. assessed;
}

consume-IsOnce_example :
    let w = (consume codec partition deliveries start).world in IsOnce Assessed w.chain w.writes
consume-IsOnce_example =
    consume-IsOnce Assessed codec partition deliveries start
      (
        attempt-IsLawful false 1,
        (attempt-IsLawful true 2, (attempt-IsLawful true 3, (attempt-IsLawful true 4, tt))),
      )
      (record { apart = tt; standing = tt })

handle_ends_example : HandleEnds services 3 first start.world (handle services 3 first start.world)
handle_ends_example = handle_ends services 3 first start.world

first-IsValid : IsValid codec first
unfolding claim_index_event_id decimal lower starts_with
first-IsValid = record {
  event_id = refl;
  contract_address = refl;
  claimant = refl;
  claim_hash = refl;
  data_pointer = refl;
  block_hash = refl;
  transaction_hash = refl;
  chain = omega arith;
  identity = refl;
  pointer = refl;
}

from_json_bytes-to_json_bytes_example : from_json_bytes codec (to_json_bytes codec first) ≡ ok first
from_json_bytes-to_json_bytes_example =
    from_json_bytes-to_json_bytes codec first first-IsValid refl refl

from_json_bytes-IsValid_example : IsValid codec first
from_json_bytes-IsValid_example =
    from_json_bytes-IsValid codec (to_json_bytes codec first) first
      (from_json_bytes-to_json_bytes codec first first-IsValid refl refl)

-- Another claimant's document.
abbrev strangers : Attempt Bool
strangers = record (attempt true 5) {
  services = record services {
    verify_claim = λ c. verified (insurer_principal c.insurer_id "0xee");
  };
}

first-IsRejected : IsRejected strangers.services first
unfolding lower remove_prefix
first-IsRejected = record {
  payload = "doc";
  downloaded = refl;
  same_hash = refl;
  reason = other_claimant (claim_of "alpha") (insurer_principal "alpha" "0xee") refl refl refl refl;
}

process_next-Passes_example :
    Passes codec strangers partition start first
      (process_next codec strangers partition next_message start)
unfolding get_elem? from_json_bytes field claim_index_event_id decimal lower starts_with
process_next-Passes_example =
    process_next-Passes codec strangers partition start (object (fields_of codec first)) first refl
      refl first-IsRejected refl refl
