-- ===== src/Gasless/RelayCases/Sent.antt =====
-- What the operations on submissions that were sent may commit.
use decentralized_claims_reg.Prelude.{
  ℕ, String, Bool, false, Option, none, some, [], ◌∷◌, ◌++◌, ◌≡◌, refl, ap, ◌&&◌, ◌||◌, ◌+◌, leb,
  arith, ◌<◌, ◌==◌, not,
}
use decentralized_claims_reg.Prelude.Lists.{find, update, update-none}
use decentralized_claims_reg.Postgres.{Result, pure, raise, or_raise, when◌run◌otherwise◌, ◌>>=◌}
use decentralized_claims_reg.Postgres.Rules.{
  settle, settle-finish, settle-when, settle-or_raise, settle-lift,
}
use decentralized_claims_reg.Gasless.Records.{
  State, Submission, Outbox, SignedRelayTransaction, Error, signed, broadcast, confirmed, state_eq,
  not_found, different_receipt, cannot_broadcast, cannot_confirm, fees_must_increase,
  replacement_wrong_nonce, cannot_bump,
}
use decentralized_claims_reg.Gasless.Table.{
  Tx, by_id, returned, update_returning, attempt, insert_attempt, attempt_clash, translate,
}
use decentralized_claims_reg.Gasless.Cases.{settle-insert_attempt}
use decentralized_claims_reg.Gasless.Relay.{
  sent_attempt, stamp_attempt, record_broadcast, in_flight, broadcast_row, mark_broadcast,
  record_replacement, replace_with, replace_quoted, persist_replacement_transaction, confirm,
  same_receipt, confirmed_row, mark_confirmed,
}

-- What `mark_broadcast` commits where it finds the row `r`.
abbrev pub broadcast_outbox : ℕ → ℕ → Submission → Outbox → Outbox
broadcast_outbox i now r s = record s {
  submissions = update (λ r. by_id i r && in_flight r.state) (record_broadcast now) s.submissions;
  attempts = update (sent_attempt i r.transaction_hash) (stamp_attempt now) s.attempts;
}

-- What `persist_replacement_transaction` commits for the row `r`.
abbrev pub replaced_outbox : ℕ → SignedRelayTransaction → ℕ → Submission → Outbox → Outbox
replaced_outbox i t now r s = record s {
  submissions = update (by_id i) (record_replacement t (r.relay_attempts + 1) now) s.submissions;
  attempts = s.attempts ++ attempt i (r.relay_attempts + 1) t ∷ [];
}

is_broadcast : (s : State) → not (state_eq s broadcast) ≡ false → s ≡ broadcast
is_broadcast s e = ground arith

module _ (P : Outbox → Type 0) (s : Outbox) (same : P s) where
  broadcast_row_cases :
      (i now : ℕ) (o : Option Submission) (t : Outbox)
      → (o ≡ none → t ≡ s)
      → ((r : Submission)
          → o ≡ some r
          → P (record t {
            attempts = update (sent_attempt i r.transaction_hash) (stamp_attempt now) t.attempts;
          }))
      → P (settle s (broadcast_row i now (returned (record_broadcast now) o) t))
  unfolding broadcast_row record_broadcast
  broadcast_row_cases i now (some r) t e h = h r refl
  broadcast_row_cases i now none t e h = rw (e refl) (
      settle-or_raise P s same (find (by_id i) s.submissions) not_found
        (λ r. when state_eq r.state confirmed run pure r otherwise raise (cannot_broadcast r.state))
        s λ r _. ground arith)

  pub mark_broadcast_cases :
      (i now : ℕ)
      → ((r : Submission)
          → find (λ r. by_id i r && in_flight r.state) s.submissions ≡ some r
          → P (broadcast_outbox i now r s))
      → P (mark_broadcast i now s).1
  unfolding mark_broadcast
  mark_broadcast_cases i now h =
      let p : Submission → Bool = λ r. by_id i r && in_flight r.state in
      let t : Outbox = record s { submissions = update p (record_broadcast now) s.submissions } in
      settle-finish P s translate
        (broadcast_row i now (returned (record_broadcast now) (find p s.submissions)) t)
        (broadcast_row_cases i now (find p s.submissions) t
          (λ e.
            ap (λ rows. record s { submissions = rows })
              (update-none p (record_broadcast now) s.submissions e))
          h)

  confirmed_row_cases :
      (i : ℕ) (hash : String) (block claim now : ℕ) (o : Option Submission) (t : Outbox)
      → (o ≡ none → t ≡ s)
      → P t
      → P (
          settle s (confirmed_row i hash block claim (returned (confirm hash block claim now) o) t))
  unfolding confirmed_row
  confirmed_row_cases i hash block claim now (some r) t e h = h
  confirmed_row_cases i hash block claim now none t e h = rw (e refl) (
      settle-or_raise P s same (find (by_id i) s.submissions) not_found
        (λ r.
          when state_eq r.state confirmed
          run (when same_receipt hash block claim r run pure r otherwise raise different_receipt)
          otherwise raise (cannot_confirm r.state))
        s λ r _. ground arith)

  pub mark_confirmed_cases :
      (i : ℕ) (hash : String) (block claim now : ℕ)
      → P (record s {
        submissions =
            update
              (λ r. by_id i r && in_flight r.state)
              (confirm hash block claim now)
              s.submissions;
      })
      → P (mark_confirmed i hash block claim now s).1
  unfolding mark_confirmed
  mark_confirmed_cases i hash block claim now h =
      let p : Submission → Bool = λ r. by_id i r && in_flight r.state in
      let f : Submission → Submission = confirm hash block claim now in
      let t : Outbox = record s { submissions = update p f s.submissions } in
      settle-finish P s translate
        (confirmed_row i hash block claim (returned f (find p s.submissions)) t)
        (confirmed_row_cases i hash block claim now (find p s.submissions) t
          (λ e. ap (λ rows. record s { submissions = rows }) (update-none p f s.submissions e)) h)

  replace_with_cases :
      (i : ℕ) (t : SignedRelayTransaction) (nonce fee tip now : ℕ) (r : Submission)
      → (t.nonce ≡ nonce
          → fee < t.max_fee_per_gas
          → tip < t.max_priority_fee_per_gas
          → find (attempt_clash (attempt i (r.relay_attempts + 1) t)) s.attempts ≡ none
          → P (replaced_outbox i t now r s))
      → P (settle s (replace_with i t nonce fee tip now r s))
  unfolding replace_with
  replace_with_cases i t nonce fee tip now r h =
      let low : Bool = leb t.max_fee_per_gas fee || leb t.max_priority_fee_per_gas tip in
      let k : ℕ = r.relay_attempts + 1 in
      let write : Unit {0} → Tx Submission = λ _. do
        row ← update_returning (by_id i) (record_replacement t k now)
        or_raise row not_found
      in let insert : Tx Submission = insert_attempt i k t >>= write in
        settle-when P s (not (t.nonce == nonce)) (raise replacement_wrong_nonce)
          (when low run raise fees_must_increase otherwise insert) s (λ _. same)
          λ e.
            settle-when P s low (raise fees_must_increase) insert s (λ _. same)
              λ e'.
                settle-insert_attempt P s same (find (attempt_clash (attempt i k t)) s.attempts)
                  (attempt i k t) write s
                  λ e''.
                    let x : P (replaced_outbox i t now r s) =
                      h (ground arith) (ground arith) (ground arith) e'' in
                    ground arith

  replace_quoted_cases :
      (i : ℕ) (sign : ℕ → ℕ → ℕ → Result Error SignedRelayTransaction) (now : ℕ) (r : Submission)
      (n f p : Option ℕ)
      → ((t : SignedRelayTransaction) (nonce fee tip : ℕ)
          → n ≡ some nonce
          → f ≡ some fee
          → p ≡ some tip
          → t.nonce ≡ nonce
          → fee < t.max_fee_per_gas
          → tip < t.max_priority_fee_per_gas
          → find (attempt_clash (attempt i (r.relay_attempts + 1) t)) s.attempts ≡ none
          → P (replaced_outbox i t now r s))
      → P (settle s (replace_quoted i sign now r n f p s))
  unfolding replace_quoted
  replace_quoted_cases i sign now r (some nonce) (some fee) (some tip) h =
      settle-lift P s same (sign nonce fee tip) (λ t. replace_with i t nonce fee tip now r) s
        λ t _. replace_with_cases i t nonce fee tip now r (h t nonce fee tip refl refl refl)
  replace_quoted_cases i sign now r _ _ _ h = same

  pub persist_replacement_cases :
      (i : ℕ) (sign : ℕ → ℕ → ℕ → Result Error SignedRelayTransaction) (now : ℕ)
      → ((r : Submission) (t : SignedRelayTransaction) (nonce fee tip : ℕ)
          → find (by_id i) s.submissions ≡ some r
          → r.state ≡ broadcast
          → r.relayer_nonce ≡ some nonce
          → r.max_fee_per_gas ≡ some fee
          → r.max_priority_fee_per_gas ≡ some tip
          → t.nonce ≡ nonce
          → fee < t.max_fee_per_gas
          → tip < t.max_priority_fee_per_gas
          → find (attempt_clash (attempt i (r.relay_attempts + 1) t)) s.attempts ≡ none
          → P (replaced_outbox i t now r s))
      → P (persist_replacement_transaction i sign now s).1
  unfolding persist_replacement_transaction
  persist_replacement_cases i sign now h =
      let found : Option Submission = find (by_id i) s.submissions in
      let quoted : Submission → Tx Submission = λ r.
        replace_quoted i sign now r r.relayer_nonce r.max_fee_per_gas r.max_priority_fee_per_gas in
      let bump : Submission → Tx Submission = λ r.
        when not (state_eq r.state broadcast) run raise (cannot_bump r.state) otherwise quoted r in
      let rest : Submission → Tx Submission =
        λ r. when state_eq r.state signed run pure r otherwise bump r in
      settle-finish P s translate ((or_raise found not_found >>= rest) s) (
        settle-or_raise P s same found not_found rest s λ r e.
          settle-when P s (state_eq r.state signed) (pure r) (bump r) s (λ _. same)
            λ _.
              settle-when P s (not (state_eq r.state broadcast)) (raise (cannot_bump r.state))
                (quoted r) s (λ _. same)
                λ e'.
                  replace_quoted_cases i sign now r r.relayer_nonce r.max_fee_per_gas
                    r.max_priority_fee_per_gas
                    (λ t nonce fee tip. h r t nonce fee tip e (is_broadcast r.state e')))
