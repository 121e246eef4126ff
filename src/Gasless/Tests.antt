-- ===== src/Gasless/Tests.antt =====
-- Concrete runs of the sponsored-submission tables.
use mathlib.Core.List.{Perm}
use decentralized_claims_reg.Prelude.{
  ℕ, String, false, none, List, [], ◌∷◌, ◌++◌, ◌+◌, ◌≡◌, ◌≤◌, ◌⊎◌,
}
use decentralized_claims_reg.Prelude.Lists.{All, AllPairs, keep, length}
use decentralized_claims_reg.Postgres.{Result, ok}
use decentralized_claims_reg.Gasless.Records.{
  insurer, Request, Submission, SignedRelayTransaction, Outbox, Error,
}
use decentralized_claims_reg.Gasless.Prepare.{Limits, ForwardRequest, begin_preparation}
use decentralized_claims_reg.Gasless.Run.{
  Call, begins, is_prepared, authorizes, signs, broadcasts, replaces, confirms, run, empty,
}
use decentralized_claims_reg.Gasless.Lifecycle.{IsConsistent, run-IsConsistent}
use decentralized_claims_reg.Gasless.Nonces.Rows.{HasNonces}
use decentralized_claims_reg.Gasless.Nonces.History.{run-HasNonces}
use decentralized_claims_reg.Gasless.Keys.{HasKeys}
use decentralized_claims_reg.Gasless.Indexes.{run-HasKeys}
use decentralized_claims_reg.Gasless.Begin.{BeginEnds, begin_preparation_ends}
use decentralized_claims_reg.Gasless.Authorize.{AuthorizeEnds, authorize_ends}
use decentralized_claims_reg.Gasless.Relay.{
  authorize, list_relay_candidates, overdue_authorization, relayable,
}
use decentralized_claims_reg.Gasless.Candidates.{Ahead, list_relay_candidates-InOrder}

abbrev request : ℕ → String → Request
request i key = record {
  submission_id = i;
  credential_id = "credential";
  insurer_id = "insurer";
  signer_address = "0xAb";
  chain_id = 1;
  contract_address = "0xC0";
  forwarder_address = "0xF0";
  idempotency_key_hash = key;
  request_fingerprint = "body";
  client_fingerprint = "client";
  submission_kind = insurer;
  claimant_address = none;
  insurer_address = none;
  claimant_commitment = none;
  policy_id = none;
  permit_issuer_address = none;
}

abbrev limits : Limits
limits = record {
  insurer_minute_limit = 5;
  client_minute_limit = 5;
  daily_quota = 10;
  bypass_limits = false;
}

abbrev forward : ForwardRequest
forward = record {
  claim_hash = "0x01";
  data_pointer = "ipfs://a";
  call_data = "0x02";
  forwarder_nonce = 0;
  forward_gas = 100;
  deadline = 900;
}

abbrev signed_call : ℕ → ℕ → String → SignedRelayTransaction
signed_call n fee hash = record {
  nonce = n;
  raw_transaction = "raw";
  transaction_hash = hash;
  max_fee_per_gas = fee;
  max_priority_fee_per_gas = fee;
}

abbrev sign : ℕ → Result Error SignedRelayTransaction
sign n = ok (signed_call n 10 "0xaa")

abbrev bump : ℕ → ℕ → ℕ → Result Error SignedRelayTransaction
bump n fee tip = ok (signed_call n (fee + 1) "0xbb")

-- A submission that is prepared and authorized, and a retry of its preparation.
abbrev beginning : List (ℕ × Call)
beginning =
    (0, begins (request 7 "key") limits)
    ∷ (1, begins (request 8 "key") limits)
    ∷ (2, is_prepared 7 forward)
    ∷ (3, authorizes 7 "credential" "signature")
    ∷ []

-- It is signed, sent, replaced and mined; then another one begins.
abbrev ending : List (ℕ × Call)
ending =
    (4, signs 7 "0xR" 4 sign)
    ∷ (5, broadcasts 7)
    ∷ (6, replaces 7 bump)
    ∷ (7, broadcasts 7)
    ∷ (8, confirms 7 "0xbb" 12 3)
    ∷ (9, begins (request 9 "other") limits)
    ∷ []

abbrev waiting : Outbox
waiting = run empty beginning

IsConsistent-empty : IsConsistent empty
IsConsistent-empty = record { unique = tt; phases = tt }

run-IsConsistent_example : IsConsistent (run empty (beginning ++ ending))
run-IsConsistent_example = run-IsConsistent empty (beginning ++ ending) IsConsistent-empty

HasNonces-empty : HasNonces empty
HasNonces-empty = record { folded = tt; below = tt; distinct = tt }

run-HasNonces_example : HasNonces (run empty (beginning ++ ending))
run-HasNonces_example = run-HasNonces empty (beginning ++ ending) tt HasNonces-empty

begin_preparation_ends_example :
    BeginEnds
      (request 8 "key")
      limits
      5
      waiting
      (begin_preparation (request 8 "key") limits 5 waiting)
begin_preparation_ends_example = begin_preparation_ends (request 8 "key") limits 5 waiting

authorize_ends_example :
    AuthorizeEnds 7 "credential" "other" 5 waiting (authorize 7 "credential" "other" 5 waiting)
authorize_ends_example = authorize_ends 7 "credential" "other" 5 waiting

list_relay_candidates-InOrder_example :
    (rows rest : List Submission) × ((list_relay_candidates 20 5 waiting).0 ≡ ok rows)
    × Perm
        (rows ++ rest)
        (keep (λ r. relayable r.state) (list_relay_candidates 20 5 waiting).1.submissions)
    × All (λ r. overdue_authorization 5 r ≡ false) rows
    × AllPairs Ahead (rows ++ rest)
    × (length rows ≤ 20)
    × ((rest ≡ []) ⊎ (length rows ≡ 20))
list_relay_candidates-InOrder_example = list_relay_candidates-InOrder 20 5 waiting

run-HasKeys_example : HasKeys (run empty (beginning ++ ending)).submissions
run-HasKeys_example = run-HasKeys empty (beginning ++ ending) tt tt
