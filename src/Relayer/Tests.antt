-- ===== src/Relayer/Tests.antt =====
-- Concrete batches of the relayer.
use decentralized_claims_reg.Prelude.{false, none, some, [], ◌∷◌, ◌≡◌, refl}
use decentralized_claims_reg.Prelude.Lists.{find}
use decentralized_claims_reg.Gasless.Table.{by_id}
use decentralized_claims_reg.Prelude.Text.{str_eq}
use decentralized_claims_reg.Postgres.{ok, err}
use decentralized_claims_reg.Gasless.Records.{
  chain_error, Submission, storage_unavailable, authorized, insurer,
}
use decentralized_claims_reg.Relayer.Worker.{Chain, Worker, World, store, Signer, process, failure}
use decentralized_claims_reg.Relayer.Failures.{
  process-storage_unavailable, failure-deployment_mismatch,
}

abbrev broken_signer : Signer
broken_signer nonce = err (chain_error "key store is locked")

abbrev chain : Chain
chain = record {
  address = "0xR";
  prepare_relay_signer = λ sent r quote. ok broken_signer;
  pending_nonce = λ sent. ok 4;
  verify_signature = λ sent r signature. ok tt;
  send = λ sent raw hash. ok tt;
  receipt = λ sent hash. ok none;
  has_confirmations = λ sent receipt n. ok false;
  confirmation = λ sent r receipt. err "no event";
}

abbrev worker : Worker
worker = record { chain = chain; confirmation_blocks = 2; stuck_transaction_seconds = 60 }

abbrev waiting_row : Submission
waiting_row = record {
  request = record {
    submission_id = 7;
    credential_id = "credential";
    insurer_id = "insurer";
    signer_address = "0xAb";
    chain_id = 1;
    contract_address = "0xc0";
    forwarder_address = "0xf0";
    idempotency_key_hash = "key";
    request_fingerprint = "body";
    client_fingerprint = "client";
    submission_kind = insurer;
    claimant_address = none;
    insurer_address = none;
    claimant_commitment = none;
    policy_id = none;
    permit_issuer_address = none;
  };
  state = authorized;
  claim_hash = some "0x01";
  data_pointer = some "ipfs://a";
  call_data = some "0x02";
  forwarder_nonce = some 0;
  forward_gas = some 100;
  deadline = some 900;
  insurer_signature = some "signature";
  relayer_address = none;
  relayer_nonce = none;
  raw_transaction = none;
  transaction_hash = none;
  max_fee_per_gas = none;
  max_priority_fee_per_gas = none;
  block_number = none;
  claim_id = none;
  relay_attempts = 0;
  last_error_code = none;
  created_at = 1;
  updated_at = 3;
  authorized_at = some 3;
  broadcast_at = none;
  last_broadcast_at = none;
  confirmed_at = none;
}

abbrev world : World
world = record {
  outbox = record { submissions = waiting_row ∷ []; nonces = []; attempts = [] };
  sent = [];
}

waiting_found : find (by_id waiting_row.submission_id) world.outbox.submissions ≡ some waiting_row
unfolding find
waiting_found = refl

process-storage_unavailable_example :
    process worker 5 waiting_row world ≡ (err (store storage_unavailable), world)
process-storage_unavailable_example =
    process-storage_unavailable worker 5 4 world waiting_row broken_signer "key store is locked"
      refl refl waiting_found refl refl refl

failure-deployment_mismatch_example :
    str_eq (failure "Contract target does not match the deployment").0 "deployment_mismatch" ≡ false
failure-deployment_mismatch_example =
    failure-deployment_mismatch "Contract target does not match the deployment"
