-- ===== src/Gasless/Cases.antt =====
-- What each operation may commit: nothing, or one of a few given changes. A predicate that holds
-- of the tables before and after these changes holds after the operation.
use decentralized_claims_reg.Prelude.{
  ℕ, String, Option, none, some, List, [], ◌∷◌, ◌++◌, ◌≡◌, refl, ◌&&◌, inl, inr, arith, ltb,
  Bool-cases,
}
use decentralized_claims_reg.Prelude.Lists.{find, update}
use decentralized_claims_reg.Postgres.{ok, ◌>>=◌}
use decentralized_claims_reg.Postgres.Rules.{settle, settle-finish, settle-bind}
use decentralized_claims_reg.Gasless.Records.{
  Submission, Request, Outbox, Attempt, preparing, state_eq, active_state,
}
use decentralized_claims_reg.Gasless.Table.{
  Tx, by_id, insert_unless, insert_attempt_unless, translate,
}
use decentralized_claims_reg.Gasless.Prepare.{
  Limits, ForwardRequest, same_signer, stale_preparation, stale_signature, fail_lease, expire,
  new_submission, prepare, fail_with, lapse, overdue, owned, used_key, check_limits,
  insert_preparation, resume_or_insert, begin_preparation, mark_prepared, mark_preparation_failed,
  get_for_credential,
}

-- The rows after the two expiry updates of `begin_preparation`.
abbrev pub swept : Request → ℕ → List Submission → List Submission
swept q now rows =
    update (λ r. same_signer q r && stale_signature now r) (expire now)
      (update (λ r. same_signer q r && stale_preparation now r) (fail_lease now) rows)

check_limits-keeps :
    (q : Request) (l : Limits) (now : ℕ) (s t : Outbox)
    → check_limits q l now s ≡ (ok tt, t)
    → t ≡ s
unfolding check_limits
check_limits-keeps q l now s t h = ground arith

module _ (P : Outbox → Type 0) (s : Outbox) (same : P s) where
  settle-insert :
      {B : Type 0} (o : Option Submission) (r : Submission) (f : Submission → Tx B) (t : Outbox)
      → (o ≡ none → P (settle s (f r (record t { submissions = t.submissions ++ r ∷ [] }))))
      → P (settle s ((insert_unless o r >>= f) t))
  settle-insert none r f t h = h refl
  settle-insert (some taken) r f t h = same

  pub settle-insert_attempt :
      {B : Type 0} (o : Option Attempt) (a : Attempt) (f : Unit {0} → Tx B) (t : Outbox)
      → (o ≡ none → P (settle s (f tt (record t { attempts = t.attempts ++ a ∷ [] }))))
      → P (settle s ((insert_attempt_unless o a >>= f) t))
  settle-insert_attempt none a f t h =
      elim (Bool-cases (ltb 0 a.max_fee_per_gas && ltb 0 a.max_priority_fee_per_gas)) [
        | inl paid ↦ rw (paid, settle) (h refl)
        | inr unpaid ↦ rw (unpaid, settle) same
      ]
  settle-insert_attempt (some taken) a f t h = same

  insert_preparation_cases :
      (q : Request) (l : Limits) (now : ℕ) (o : Option Submission) (t : Outbox)
      → (o ≡ none
          → find (by_id q.submission_id) t.submissions ≡ none
          → P (record t { submissions = t.submissions ++ new_submission q now ∷ [] }))
      → P (settle s (insert_preparation q l now o t))
  unfolding insert_preparation new_submission
  insert_preparation_cases q l now (some r) t f = same
  insert_preparation_cases q l now none t f =
      settle-bind P s same (check_limits q l now) _ t λ a u e.
        rw (check_limits-keeps q l now t u e) (
          settle-insert (find (by_id q.submission_id) t.submissions) (new_submission q now) _ t
            (f refl))

  resume_or_insert_cases :
      (q : Request) (l : Limits) (now : ℕ) (o : Option Submission) (t : Outbox)
      → P t
      → (o ≡ none
          → find (λ r. same_signer q r && active_state r.state) t.submissions ≡ none
          → find (by_id q.submission_id) t.submissions ≡ none
          → P (record t { submissions = t.submissions ++ new_submission q now ∷ [] }))
      → P (settle s (resume_or_insert q l now o t))
  unfolding resume_or_insert
  resume_or_insert_cases q l now (some r) t h f = ground arith
  resume_or_insert_cases q l now none t h f =
      insert_preparation_cases q l now
        (find (λ r. same_signer q r && active_state r.state) t.submissions) t (f refl)

  pub begin_preparation_cases :
      (q : Request) (l : Limits) (now : ℕ)
      → P (record s { submissions = swept q now s.submissions })
      → (find (used_key q) (swept q now s.submissions) ≡ none
          → find (λ r. same_signer q r && active_state r.state) (swept q now s.submissions) ≡ none
          → find (by_id q.submission_id) (swept q now s.submissions) ≡ none
          → P (record s { submissions = swept q now s.submissions ++ new_submission q now ∷ [] }))
      → P (begin_preparation q l now s).1
  unfolding begin_preparation
  begin_preparation_cases q l now h f =
      let t : Outbox = record s { submissions = swept q now s.submissions } in
      settle-finish P s translate (resume_or_insert q l now (find (used_key q) t.submissions) t)
        (resume_or_insert_cases q l now (find (used_key q) t.submissions) t h f)

  pub mark_prepared_cases :
      (i : ℕ) (f : ForwardRequest) (now : ℕ)
      → P (record s {
        submissions =
            update (λ r. by_id i r && state_eq r.state preparing) (prepare f now) s.submissions;
      })
      → P (mark_prepared i f now s).1
  unfolding mark_prepared
  mark_prepared_cases i f now h = ground arith

  pub get_for_credential_cases :
      (i : ℕ) (c : String) (now : ℕ)
      → P (record s {
        submissions = update (λ r. owned i c r && overdue now r) (lapse now) s.submissions;
      })
      → P (get_for_credential i c now s).1
  unfolding get_for_credential
  get_for_credential_cases i c now h = ground arith

pub mark_preparation_failed_lem :
    (i : ℕ) (code : String) (now : ℕ) (s : Outbox)
    → (mark_preparation_failed i code now s).1 ≡ record s {
      submissions =
          update (λ r. by_id i r && state_eq r.state preparing) (fail_with code now) s.submissions;
    }
unfolding mark_preparation_failed
mark_preparation_failed_lem i code now s = refl
