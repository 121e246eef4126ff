-- ===== src/Gasless/Relay.antt =====
-- gasless_submission_repository.py: the recorded signature, and the transitions of the relayer.
pub mod Transit
unfoldable pub use Transit.*
use decentralized_claims_reg.Prelude.{
  ℕ, String, Bool, true, false, Option, none, some, List, [], ◌∷◌, map, ◌+◌, ◌/◌, max, ◌==◌, ltb,
  leb, ◌&&◌, ◌||◌, not, if◌then◌else◌,
}
use decentralized_claims_reg.Prelude.Lists.{take, keep, update}
use decentralized_claims_reg.Prelude.Text.{str_eq, lower}
use decentralized_claims_reg.Postgres.{
  Result, pure, raise, gets, lift, or_raise, modify, when◌run◌otherwise◌, ◌>>=◌, ◌>>◌,
}
use decentralized_claims_reg.Gasless.Records.{
  State, prepared, authorized, signed, broadcast, confirmed, failed, state_eq, Submission, Attempt,
  SignedRelayTransaction, Outbox, Error, not_found, different_signature, deadline_expired,
  wrong_nonce, replacement_wrong_nonce, fees_must_increase, different_receipt, cannot_authorize,
  cannot_sign, cannot_broadcast, cannot_bump, cannot_confirm,
}
use decentralized_claims_reg.Gasless.Table.{
  Tx, cursor, by_id, select, update_where, update_returning, insert_attempt, next_nonce, put_nonce,
}
use decentralized_claims_reg.Gasless.Prepare.{second, past_epoch, owned, expire}

-- `deadline is None or deadline < int(now.timestamp())`
abbrev pub deadline_passed : Option ℕ → ℕ → Bool
deadline_passed none t = true
deadline_passed (some d) t = ltb d t

unfoldable pub record_signature : String → ℕ → Submission → Submission
record_signature signature now r = record r {
  state = authorized;
  insurer_signature = some signature;
  authorized_at = some now;
  updated_at = now;
  last_error_code = none;
}

unfoldable pub has_authorization : State → Bool
has_authorization authorized = true
has_authorization signed = true
has_authorization broadcast = true
has_authorization confirmed = true
has_authorization _ = false

-- The `UPDATE … SET state = 'expired'` is made before the exception, in one transaction with it.
unfoldable pub authorize_record : ℕ → String → ℕ → Submission → Tx Submission
authorize_record i signature now r =
    when has_authorization r.state
    run (when holds r.insurer_signature signature run pure r otherwise raise different_signature)
    otherwise when not (state_eq r.state prepared)
    run raise (cannot_authorize r.state)
    otherwise when deadline_passed r.deadline (now / second)
    run (do update_where (by_id i) (expire now); raise deadline_expired)
    otherwise do
      row ← update_returning (by_id i) (record_signature signature now)
      or_raise row not_found

unfoldable pub authorize : ℕ → String → String → ℕ → Tx Submission
unfolding authorize_record
authorize i credential signature now = cursor do
  found ← select (owned i credential)
  r ← or_raise found not_found
  authorize_record i signature now r

unfoldable pub relay_rank : State → ℕ
relay_rank signed = 0
relay_rank broadcast = 1
relay_rank _ = 2

-- `ORDER BY CASE state …, created_at ASC`
unfoldable pub before : Submission → Submission → Bool
unfolding relay_rank
before r s =
    ltb (relay_rank r.state) (relay_rank s.state)
    || (relay_rank r.state == relay_rank s.state && leb r.created_at s.created_at)

unfoldable pub place : Submission → List Submission → List Submission
place r [] = r ∷ []
place r (s ∷ rest) = let further = place r rest in if before r s then r ∷ s ∷ rest else s ∷ further

unfoldable pub order : List Submission → List Submission
unfolding place
order [] = []
order (r ∷ rest) = place r (order rest)

unfoldable pub overdue_authorization : ℕ → Submission → Bool
overdue_authorization now r = state_eq r.state authorized && past_epoch r.deadline now

unfoldable pub list_relay_candidates : ℕ → ℕ → Tx (List Submission)
list_relay_candidates limit now = cursor do
  update_where (overdue_authorization now) (expire now)
  gets (λ s. take limit (order (keep (λ r. relayable r.state) s.submissions)))

-- The signed transaction as it is first recorded.
unfoldable pub record_signed : String → SignedRelayTransaction → ℕ → Submission → Submission
record_signed relayer t now r = record r {
  state = signed;
  relayer_address = some relayer;
  relayer_nonce = some t.nonce;
  raw_transaction = some t.raw_transaction;
  transaction_hash = some t.transaction_hash;
  max_fee_per_gas = some t.max_fee_per_gas;
  max_priority_fee_per_gas = some t.max_priority_fee_per_gas;
  updated_at = now;
  relay_attempts = r.relay_attempts + 1;
}

unfoldable pub store_reserved :
    ℕ → String → ℕ → SignedRelayTransaction → ℕ → Submission → Tx Submission
store_reserved i relayer reserved t now r = do
  modify (λ s. record s { nonces = put_nonce r.chain_id relayer (reserved + 1) s.nonces })
  row ← update_returning (by_id i) (record_signed relayer t now)
  current ← or_raise row not_found
  insert_attempt i 1 t
  pure current

-- `max(rpc_pending_nonce, next_nonce)`
abbrev pub reserved_nonce : ℕ → Submission → String → Outbox → ℕ
reserved_nonce pending r relayer s = max pending (next_nonce r.chain_id relayer s.nonces)

unfoldable pub sign_reserved :
    ℕ → String → ℕ → (ℕ → Result Error SignedRelayTransaction) → ℕ → Submission → Tx Submission
unfolding store_reserved
sign_reserved i relayer pending sign now r = do
  reserved ← gets (reserved_nonce pending r relayer)
  t ← lift (sign reserved)
  when not (t.nonce == reserved)
      run raise wrong_nonce
      otherwise store_reserved i relayer reserved t now r

unfoldable pub persist_record :
    ℕ
    → String
    → ℕ
    → (ℕ → Result Error SignedRelayTransaction)
    → ℕ
    → Submission
    → Option String
    → Tx Submission
unfolding sign_reserved
persist_record i relayer pending sign now r (some raw) = pure r
persist_record i relayer pending sign now r none =
    when not (state_eq r.state authorized)
    run raise (cannot_sign r.state)
    otherwise sign_reserved i relayer pending sign now r

-- The advisory lock on the relayer's nonce stream makes this one atomic step.
unfoldable pub persist_signed_transaction :
    ℕ → String → ℕ → (ℕ → Result Error SignedRelayTransaction) → ℕ → Tx Submission
unfolding persist_record
persist_signed_transaction i relayer pending sign now = cursor do
  found ← select (by_id i)
  r ← or_raise found not_found
  persist_record i relayer pending sign now r r.raw_transaction
