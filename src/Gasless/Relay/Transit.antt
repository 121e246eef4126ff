-- ===== src/Gasless/Relay/Transit.antt =====
-- gasless_submission_repository.py: the transitions of submissions that have a transaction.
use decentralized_claims_reg.Prelude.{
  ℕ, String, Bool, true, false, Option, none, some, List, [], ◌∷◌, map, ◌+◌, ◌==◌, leb, ◌&&◌, ◌||◌,
  not, if◌then◌else◌,
}
use decentralized_claims_reg.Prelude.Lists.{keep, update}
use decentralized_claims_reg.Prelude.Text.{str_eq, lower}
use decentralized_claims_reg.Postgres.{
  Result, pure, raise, gets, lift, or_raise, modify, when◌run◌otherwise◌, ◌>>=◌, ◌>>◌,
}
use decentralized_claims_reg.Gasless.Records.{
  State, authorized, signed, broadcast, confirmed, failed, state_eq, Submission, Attempt,
  SignedRelayTransaction, Error, not_found, replacement_wrong_nonce, fees_must_increase,
  different_receipt, cannot_broadcast, cannot_bump, cannot_confirm,
}
use decentralized_claims_reg.Gasless.Table.{
  Tx, cursor, by_id, select, update_where, update_returning, insert_attempt,
}

abbrev pub holds : Option String → String → Bool
holds none t = false
holds (some s) t = str_eq s t

unfoldable pub relayable : State → Bool
relayable authorized = true
relayable signed = true
relayable broadcast = true
relayable _ = false

abbrev pub first_time : Option ℕ → ℕ → Option ℕ
first_time none now = some now
first_time (some t) now = some t

unfoldable pub record_broadcast : ℕ → Submission → Submission
record_broadcast now r = record r {
  state = broadcast;
  broadcast_at = first_time r.broadcast_at now;
  last_broadcast_at = some now;
  updated_at = now;
  last_error_code = none;
}

unfoldable pub in_flight : State → Bool
in_flight signed = true
in_flight broadcast = true
in_flight _ = false

abbrev pub sent_attempt : ℕ → Option String → Attempt → Bool
sent_attempt i h a = a.submission_id == i && holds h a.transaction_hash

abbrev pub stamp_attempt : ℕ → Attempt → Attempt
stamp_attempt now a = record a { broadcast_at = first_time a.broadcast_at now }

unfoldable pub broadcast_row : ℕ → ℕ → Option Submission → Tx Submission
broadcast_row i now (some r) = do
  modify (λ s. record s {
    attempts = update (sent_attempt i r.transaction_hash) (stamp_attempt now) s.attempts;
  })
  pure r
broadcast_row i now none = do
  found ← select (by_id i)
  r ← or_raise found not_found
  when state_eq r.state confirmed run pure r otherwise raise (cannot_broadcast r.state)

unfoldable pub mark_broadcast : ℕ → ℕ → Tx Submission
unfolding broadcast_row
mark_broadcast i now = cursor do
  row ← update_returning (λ r. by_id i r && in_flight r.state) (record_broadcast now)
  broadcast_row i now row

-- `ORDER BY attempt_number DESC`
unfoldable pub place_attempt : Attempt → List Attempt → List Attempt
place_attempt a [] = a ∷ []
place_attempt a (b ∷ rest) =
    let further = place_attempt a rest in
    if leb b.attempt_number a.attempt_number then a ∷ b ∷ rest else b ∷ further

unfoldable pub newest_first : List Attempt → List Attempt
unfolding place_attempt
newest_first [] = []
newest_first (a ∷ rest) = place_attempt a (newest_first rest)

unfoldable pub list_relay_transaction_hashes : ℕ → Tx (List String)
unfolding newest_first
list_relay_transaction_hashes i = cursor do
  gets (λ s.
      map (λ a. a.transaction_hash) (newest_first (keep (λ a. a.submission_id == i) s.attempts)))

unfoldable pub record_replacement : SignedRelayTransaction → ℕ → ℕ → Submission → Submission
record_replacement t k now r = record r {
  state = signed;
  raw_transaction = some t.raw_transaction;
  transaction_hash = some t.transaction_hash;
  max_fee_per_gas = some t.max_fee_per_gas;
  max_priority_fee_per_gas = some t.max_priority_fee_per_gas;
  relay_attempts = k;
  updated_at = now;
  last_error_code = none;
}

unfoldable pub replace_with :
    ℕ → SignedRelayTransaction → ℕ → ℕ → ℕ → ℕ → Submission → Tx Submission
replace_with i t nonce fee tip now r =
    when not (t.nonce == nonce)
    run raise replacement_wrong_nonce
    otherwise when leb t.max_fee_per_gas fee || leb t.max_priority_fee_per_gas tip
    run raise fees_must_increase
    otherwise do
      insert_attempt i (r.relay_attempts + 1) t
      row ← update_returning (by_id i) (record_replacement t (r.relay_attempts + 1) now)
      or_raise row not_found

unfoldable pub replace_quoted :
    ℕ
    → (ℕ → ℕ → ℕ → Result Error SignedRelayTransaction)
    → ℕ
    → Submission
    → Option ℕ
    → Option ℕ
    → Option ℕ
    → Tx Submission
unfolding replace_with
replace_quoted i sign now r (some nonce) (some fee) (some tip) = do
  t ← lift (sign nonce fee tip)
  replace_with i t nonce fee tip now r
replace_quoted i sign now r _ _ _ = raise (cannot_bump r.state)

unfoldable pub persist_replacement_transaction :
    ℕ → (ℕ → ℕ → ℕ → Result Error SignedRelayTransaction) → ℕ → Tx Submission
unfolding replace_quoted
persist_replacement_transaction i sign now = cursor do
  found ← select (by_id i)
  r ← or_raise found not_found
  when state_eq r.state signed
      run pure r
      otherwise when not (state_eq r.state broadcast)
      run raise (cannot_bump r.state)
      otherwise replace_quoted i sign now r r.relayer_nonce r.max_fee_per_gas
          r.max_priority_fee_per_gas

unfoldable pub confirm : String → ℕ → ℕ → ℕ → Submission → Submission
confirm hash block claim now r = record r {
  state = confirmed;
  transaction_hash = some hash;
  block_number = some block;
  claim_id = some claim;
  confirmed_at = some now;
  updated_at = now;
  last_error_code = none;
}

abbrev same_number : Option ℕ → ℕ → Bool
same_number none n = false
same_number (some m) n = m == n

abbrev same_hash : Option String → String → Bool
same_hash none h = false
same_hash (some g) h = str_eq (lower g) (lower h)

unfoldable pub same_receipt : String → ℕ → ℕ → Submission → Bool
same_receipt hash block claim r =
    same_hash r.transaction_hash hash
    && same_number r.block_number block
    && same_number r.claim_id claim

unfoldable pub confirmed_row : ℕ → String → ℕ → ℕ → Option Submission → Tx Submission
confirmed_row i hash block claim (some r) = pure r
confirmed_row i hash block claim none = do
  found ← select (by_id i)
  r ← or_raise found not_found
  when state_eq r.state confirmed
      run (when same_receipt hash block claim r run pure r otherwise raise different_receipt)
      otherwise raise (cannot_confirm r.state)

unfoldable pub mark_confirmed : ℕ → String → ℕ → ℕ → ℕ → Tx Submission
unfolding confirmed_row
mark_confirmed i hash block claim now = cursor do
  row ← update_returning (λ r. by_id i r && in_flight r.state) (confirm hash block claim now)
  confirmed_row i hash block claim row

unfoldable pub note_error : String → Bool → ℕ → Submission → Submission
note_error code terminal now r = record r {
  state = if terminal then failed else r.state;
  last_error_code = some code;
  updated_at = now;
}

unfoldable pub record_relay_error : ℕ → String → Bool → ℕ → Tx (Unit {0})
record_relay_error i code terminal now =
    cursor (update_where (λ r. by_id i r && relayable r.state) (note_error code terminal now))
