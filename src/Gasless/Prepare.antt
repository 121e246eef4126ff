-- ===== src/Gasless/Prepare.antt =====
-- gasless_submission_repository.py: what the API does before a signature is recorded.
use decentralized_claims_reg.Prelude.{
  ℕ, String, Bool, true, false, Option, none, some, ◌+◌, ◌-◌, ◌*◌, ◌/◌, ◌%◌, max, ◌==◌, ltb, leb,
  ◌&&◌, ◌||◌, if◌then◌else◌,
}
use decentralized_claims_reg.Prelude.Lists.{count_where}
use decentralized_claims_reg.Prelude.Text.{str_eq, lower}
use decentralized_claims_reg.Postgres.{
  pure, raise, gets, or_raise, when◌run◌otherwise◌, ◌>>=◌, ◌>>◌,
}
use decentralized_claims_reg.Gasless.Records.{
  preparing, prepared, authorized, failed, expired, state_eq, active_state, Request, Submission,
  not_found, key_reused, wallet_active, minute_limit, client_limit, daily_quota_reached,
}
use decentralized_claims_reg.Gasless.Table.{
  Tx, cursor, by_id, select, update_where, update_returning, insert_submission,
}

abbrev pub second : ℕ
second = 1000000

abbrev pub minute : ℕ
minute = 60 * second

abbrev pub day : ℕ
day = 86400 * second

-- `PREPARATION_LEASE`
abbrev pub preparation_lease : ℕ
preparation_lease = 10 * minute

abbrev lower_some : Option String → Option String
lower_some none = none
lower_some (some t) = some (lower t)

-- The chain, the forwarder and the signer of a submission, as the statements compare them.
unfoldable pub same_signer : Request → Submission → Bool
same_signer q r =
    r.chain_id == q.chain_id
    && str_eq (lower r.forwarder_address) (lower q.forwarder_address)
    && str_eq (lower r.signer_address) (lower q.signer_address)

unfoldable pub stale_preparation : ℕ → Submission → Bool
stale_preparation now r = state_eq r.state preparing && ltb (r.updated_at + preparation_lease) now

abbrev past : Option ℕ → ℕ → Bool
past none t = false
past (some d) t = ltb d t

-- A deadline in whole seconds before `int(now.timestamp())`.
unfoldable pub stale_signature : ℕ → Submission → Bool
stale_signature now r =
    (state_eq r.state prepared || state_eq r.state authorized) && past r.deadline (now / second)

unfoldable pub fail_lease : ℕ → Submission → Submission
fail_lease now r = record r {
  state = failed;
  updated_at = now;
  last_error_code = some "preparation_lease_expired";
}

unfoldable pub expire : ℕ → Submission → Submission
expire now r = record r {
  state = expired;
  updated_at = now;
  last_error_code = some "signature_deadline_expired";
}

-- The four limits that the caller passes.
pub record Limits : Type 0 where
  pub insurer_minute_limit : ℕ
  pub client_minute_limit : ℕ
  pub daily_quota : ℕ
  pub bypass_limits : Bool

unfoldable pub used_key : Request → Submission → Bool
used_key q r =
    str_eq r.credential_id q.credential_id && str_eq r.idempotency_key_hash q.idempotency_key_hash

unfoldable pub insurer_in_minute : Request → ℕ → Submission → Bool
insurer_in_minute q now r =
    str_eq r.credential_id q.credential_id && leb now (r.created_at + minute)

unfoldable pub client_in_minute : Request → ℕ → Submission → Bool
client_in_minute q now r =
    str_eq r.client_fingerprint q.client_fingerprint && leb now (r.created_at + minute)

unfoldable pub insurer_in_day : Request → ℕ → Submission → Bool
insurer_in_day q now r =
    str_eq r.credential_id q.credential_id && leb (now - now % day) r.created_at

unfoldable pub check_limits : Request → Limits → ℕ → Tx (Unit {0})
check_limits q l now = when l.bypass_limits run pure tt otherwise do
  rows ← gets (λ s. s.submissions)
  when leb l.insurer_minute_limit (count_where (insurer_in_minute q now) rows)
      run raise (minute_limit 60)
      otherwise when leb l.client_minute_limit (count_where (client_in_minute q now) rows)
      run raise (client_limit 60)
      otherwise when leb l.daily_quota (count_where (insurer_in_day q now) rows)
      run raise (daily_quota_reached (max 1 ((day - now % day) / second)))
      otherwise pure tt

-- The row that is inserted: some addresses are folded to lower case, the signer's is not.
unfoldable pub new_submission : Request → ℕ → Submission
new_submission q now = record {
  request = record q {
    contract_address = lower q.contract_address;
    forwarder_address = lower q.forwarder_address;
    claimant_address = lower_some q.claimant_address;
    insurer_address = lower_some q.insurer_address;
    permit_issuer_address = lower_some q.permit_issuer_address;
  };
  state = preparing;
  claim_hash = none;
  data_pointer = none;
  call_data = none;
  forwarder_nonce = none;
  forward_gas = none;
  deadline = none;
  insurer_signature = none;
  relayer_address = none;
  relayer_nonce = none;
  raw_transaction = none;
  transaction_hash = none;
  max_fee_per_gas = none;
  max_priority_fee_per_gas = none;
  block_number = none;
  claim_id = none;
  relay_attempts = 0;
  last_error_code = none;
  created_at = now;
  updated_at = now;
  authorized_at = none;
  broadcast_at = none;
  last_broadcast_at = none;
  confirmed_at = none;
}

unfoldable pub insert_preparation :
    Request → Limits → ℕ → Option Submission → Tx (Submission × Bool)
unfolding check_limits
insert_preparation q l now (some r) = raise wallet_active
insert_preparation q l now none = do
  check_limits q l now
  r ← insert_submission (new_submission q now)
  pure (r, true)

unfoldable pub resume_or_insert : Request → Limits → ℕ → Option Submission → Tx (Submission × Bool)
unfolding insert_preparation
resume_or_insert q l now (some r) =
    when str_eq r.request_fingerprint q.request_fingerprint
    run pure (r, false)
    otherwise raise key_reused
resume_or_insert q l now none = do
  busy ← select (λ r. same_signer q r && active_state r.state)
  insert_preparation q l now busy

-- The two expiry updates of `begin_preparation`.
unfoldable pub expire_signer : Request → ℕ → Tx (Unit {0})
expire_signer q now = do
  update_where (λ r. same_signer q r && stale_preparation now r) (fail_lease now)
  update_where (λ r. same_signer q r && stale_signature now r) (expire now)

-- The advisory locks make this one atomic step.
unfoldable pub begin_preparation : Request → Limits → ℕ → Tx (Submission × Bool)
unfolding resume_or_insert expire_signer
begin_preparation q l now =
    cursor do expire_signer q now; existing ← select (used_key q); resume_or_insert q l now existing

-- The keyword arguments of `mark_prepared`.
pub record ForwardRequest : Type 0 where
  pub claim_hash : String
  pub data_pointer : String
  pub call_data : String
  pub forwarder_nonce : ℕ
  pub forward_gas : ℕ
  pub deadline : ℕ

unfoldable pub prepare : ForwardRequest → ℕ → Submission → Submission
prepare f now r = record r {
  state = prepared;
  claim_hash = some f.claim_hash;
  data_pointer = some f.data_pointer;
  call_data = some f.call_data;
  forwarder_nonce = some f.forwarder_nonce;
  forward_gas = some f.forward_gas;
  deadline = some f.deadline;
  updated_at = now;
  last_error_code = none;
}

unfoldable pub mark_prepared : ℕ → ForwardRequest → ℕ → Tx Submission
mark_prepared i f now = cursor do
  row ← update_returning (λ r. by_id i r && state_eq r.state preparing) (prepare f now)
  or_raise row not_found

unfoldable pub fail_with : String → ℕ → Submission → Submission
fail_with code now r = record r { state = failed; last_error_code = some code; updated_at = now }

unfoldable pub mark_preparation_failed : ℕ → String → ℕ → Tx (Unit {0})
mark_preparation_failed i code now =
    cursor (update_where (λ r. by_id i r && state_eq r.state preparing) (fail_with code now))

-- `deadline < EXTRACT(EPOCH FROM NOW())` compares with the fraction of a second.
abbrev pub past_epoch : Option ℕ → ℕ → Bool
past_epoch none now = false
past_epoch (some d) now = ltb (d * second) now

unfoldable pub owned : ℕ → String → Submission → Bool
owned i credential r = by_id i r && str_eq r.credential_id credential

unfoldable pub overdue : ℕ → Submission → Bool
overdue now r =
    stale_preparation now r
    || ((state_eq r.state prepared || state_eq r.state authorized) && past_epoch r.deadline now)

unfoldable pub lapse : ℕ → Submission → Submission
lapse now r = if state_eq r.state preparing then fail_lease now r else expire now r

unfoldable pub get_for_credential : ℕ → String → ℕ → Tx Submission
get_for_credential i credential now = cursor do
  update_where (λ r. owned i credential r && overdue now r) (lapse now)
  row ← select (owned i credential)
  or_raise row not_found
