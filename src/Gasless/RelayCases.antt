-- ===== src/Gasless/RelayCases.antt =====
-- What the operations on authorized submissions may commit, as for the preparation.
pub mod Sent
unfoldable pub use Sent.*
use decentralized_claims_reg.Prelude.{
  ℕ, String, Bool, false, Option, none, some, [], ◌∷◌, ◌++◌, ◌≡◌, refl, ap, ◌&&◌, ◌||◌, ◌+◌, ◌/◌,
  leb, arith, ◌<◌, ◌==◌, not,
}
use decentralized_claims_reg.Prelude.Lists.{find, update, update-none}
use decentralized_claims_reg.Postgres.{
  Result, pure, raise, or_raise, when◌run◌otherwise◌, ◌>>=◌, ◌>>◌,
}
use decentralized_claims_reg.Postgres.Rules.{
  settle, settle-finish, settle-when, settle-or_raise, settle-lift,
}
use decentralized_claims_reg.Gasless.Records.{
  State, Submission, Outbox, SignedRelayTransaction, Error, prepared, authorized, signed, broadcast,
  confirmed, state_eq, not_found, wrong_nonce, different_receipt, cannot_broadcast, cannot_confirm,
  cannot_sign, fees_must_increase, replacement_wrong_nonce, cannot_bump,
}
use decentralized_claims_reg.Gasless.Table.{
  Tx, by_id, returned, update_returning, attempt, insert_attempt, attempt_clash, put_nonce,
  translate,
}
use decentralized_claims_reg.Gasless.Prepare.{second, expire, owned}
use decentralized_claims_reg.Gasless.Cases.{settle-insert_attempt}
use decentralized_claims_reg.Gasless.Relay.{
  deadline_passed, has_authorization, sent_attempt, stamp_attempt, record_signature,
  authorize_record, authorize, overdue_authorization, list_relay_candidates, record_signed,
  reserved_nonce, store_reserved, sign_reserved, persist_record, persist_signed_transaction,
  record_broadcast, in_flight, broadcast_row, mark_broadcast, record_replacement, replace_with,
  replace_quoted, persist_replacement_transaction, confirm, same_receipt, confirmed_row,
  mark_confirmed,
}

-- What `persist_signed_transaction` commits.
abbrev pub signed_outbox :
    ℕ → String → ℕ → SignedRelayTransaction → ℕ → Submission → Outbox → Outbox
signed_outbox i relayer reserved t now r s = record {
  submissions = update (by_id i) (record_signed relayer t now) s.submissions;
  nonces = put_nonce r.chain_id relayer (reserved + 1) s.nonces;
  attempts = s.attempts ++ attempt i 1 t ∷ [];
}

is_authorized : (s : State) → not (state_eq s authorized) ≡ false → s ≡ authorized
is_authorized s e = ground arith

module _ (P : Outbox → Type 0) (s : Outbox) (same : P s) where
  authorize_record_cases :
      (i : ℕ) (signature : String) (now : ℕ) (r : Submission)
      → (r.state ≡ prepared
          → deadline_passed r.deadline (now / second) ≡ false
          → P (record s {
            submissions = update (by_id i) (record_signature signature now) s.submissions;
          }))
      → P (settle s (authorize_record i signature now r s))
  unfolding authorize_record has_authorization
  authorize_record_cases i signature now r h = ground arith

  pub authorize_cases :
      (i : ℕ) (credential signature : String) (now : ℕ)
      → ((r : Submission)
          → find (owned i credential) s.submissions ≡ some r
          → r.state ≡ prepared
          → deadline_passed r.deadline (now / second) ≡ false
          → P (record s {
            submissions = update (by_id i) (record_signature signature now) s.submissions;
          }))
      → P (authorize i credential signature now s).1
  unfolding authorize
  authorize_cases i credential signature now h =
      let found : Option Submission = find (owned i credential) s.submissions in
      let rest : Submission → Tx Submission = authorize_record i signature now in
      settle-finish P s translate ((or_raise found not_found >>= rest) s) (
        settle-or_raise P s same found not_found rest s
          λ r e. authorize_record_cases i signature now r (h r e))

  pub list_relay_candidates_cases :
      (limit now : ℕ)
      → P (record s { submissions = update (overdue_authorization now) (expire now) s.submissions })
      → P (list_relay_candidates limit now s).1
  unfolding list_relay_candidates
  list_relay_candidates_cases limit now h = h

  store_reserved_cases :
      (i : ℕ) (relayer : String) (reserved : ℕ) (t : SignedRelayTransaction) (now : ℕ)
      (r : Submission)
      → (find (attempt_clash (attempt i 1 t)) s.attempts ≡ none
          → P (signed_outbox i relayer reserved t now r s))
      → P (settle s (store_reserved i relayer reserved t now r s))
  unfolding store_reserved
  store_reserved_cases i relayer reserved t now r h =
      settle-or_raise P s same
        (returned (record_signed relayer t now) (find (by_id i) s.submissions)) not_found
        (λ current. do insert_attempt i 1 t; pure current)
        (record s {
          submissions = update (by_id i) (record_signed relayer t now) s.submissions;
          nonces = put_nonce r.chain_id relayer (reserved + 1) s.nonces;
        })
        λ current _.
          settle-insert_attempt P s same (find (attempt_clash (attempt i 1 t)) s.attempts)
            (attempt i 1 t) (λ _. pure current) _ h

  sign_reserved_cases :
      (i : ℕ) (relayer : String) (pending : ℕ) (sign : ℕ → Result Error SignedRelayTransaction)
      (now : ℕ) (r : Submission)
      → ((t : SignedRelayTransaction)
          → t.nonce ≡ reserved_nonce pending r relayer s
          → find (attempt_clash (attempt i 1 t)) s.attempts ≡ none
          → P (signed_outbox i relayer (reserved_nonce pending r relayer s) t now r s))
      → P (settle s (sign_reserved i relayer pending sign now r s))
  unfolding sign_reserved
  sign_reserved_cases i relayer pending sign now r h =
      let n : ℕ = reserved_nonce pending r relayer s in
      let store : SignedRelayTransaction → Tx Submission =
        λ t. store_reserved i relayer n t now r in
      settle-lift P s same (sign n)
        (λ t. when not (t.nonce == n) run raise wrong_nonce otherwise store t) s
        λ t _.
          settle-when P s (not (t.nonce == n)) (raise wrong_nonce) (store t) s (λ _. same)
            λ e. store_reserved_cases i relayer n t now r (h t (ground arith))

  persist_record_cases :
      (i : ℕ) (relayer : String) (pending : ℕ) (sign : ℕ → Result Error SignedRelayTransaction)
      (now : ℕ) (r : Submission) (raw : Option String)
      → ((t : SignedRelayTransaction)
          → raw ≡ none
          → r.state ≡ authorized
          → t.nonce ≡ reserved_nonce pending r relayer s
          → find (attempt_clash (attempt i 1 t)) s.attempts ≡ none
          → P (signed_outbox i relayer (reserved_nonce pending r relayer s) t now r s))
      → P (settle s (persist_record i relayer pending sign now r raw s))
  unfolding persist_record
  persist_record_cases i relayer pending sign now r (some x) h = same
  persist_record_cases i relayer pending sign now r none h =
      settle-when P s (not (state_eq r.state authorized)) (raise (cannot_sign r.state))
        (sign_reserved i relayer pending sign now r) s (λ _. same)
        λ e.
          sign_reserved_cases i relayer pending sign now r (λ t. h t refl (is_authorized r.state e))

  pub persist_signed_transaction_cases :
      (i : ℕ) (relayer : String) (pending : ℕ) (sign : ℕ → Result Error SignedRelayTransaction)
      (now : ℕ)
      → ((r : Submission) (t : SignedRelayTransaction)
          → find (by_id i) s.submissions ≡ some r
          → r.raw_transaction ≡ none
          → r.state ≡ authorized
          → t.nonce ≡ reserved_nonce pending r relayer s
          → find (attempt_clash (attempt i 1 t)) s.attempts ≡ none
          → P (signed_outbox i relayer (reserved_nonce pending r relayer s) t now r s))
      → P (persist_signed_transaction i relayer pending sign now s).1
  unfolding persist_signed_transaction
  persist_signed_transaction_cases i relayer pending sign now h =
      let found : Option Submission = find (by_id i) s.submissions in
      let rest : Submission → Tx Submission =
        λ r. persist_record i relayer pending sign now r r.raw_transaction in
      settle-finish P s translate ((or_raise found not_found >>= rest) s) (
        settle-or_raise P s same found not_found rest s
          λ r e. persist_record_cases i relayer pending sign now r r.raw_transaction (λ t. h r t e))
