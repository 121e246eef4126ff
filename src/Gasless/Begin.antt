-- ===== src/Gasless/Begin.antt =====
-- How `begin_preparation` ends.
use decentralized_claims_reg.Prelude.{
  ℕ, Bool, true, false, Option, none, some, List, [], ◌∷◌, ◌++◌, ◌≡◌, refl, ◌&&◌, ◌⊎◌, inl, inr,
  arith, leb, ◌<◌, Bool-cases,
}
use decentralized_claims_reg.Prelude.Text.{str_eq, eq_iff}
use decentralized_claims_reg.Prelude.Lists.{find, count_where}
use decentralized_claims_reg.Postgres.{Result, ok, err, finish, continue}
use decentralized_claims_reg.Gasless.Records.{Request, Submission, Outbox, Error, active_state}
use decentralized_claims_reg.Gasless.Table.{by_id, insert_unless, translate}
use decentralized_claims_reg.Gasless.Prepare.{
  Limits, used_key, same_signer, insurer_in_minute, client_in_minute, insurer_in_day,
  new_submission, check_limits, insert_preparation, resume_or_insert, begin_preparation,
}
use decentralized_claims_reg.Gasless.Cases.{swept}

-- The counts of the rows are below the limits.
pub record Within (q : Request) (l : Limits) (now : ℕ) (rows : List Submission) : Type 0 where
  pub insurer_minute : count_where (insurer_in_minute q now) rows < l.insurer_minute_limit
  pub client_minute : count_where (client_in_minute q now) rows < l.client_minute_limit
  pub insurer_day : count_where (insurer_in_day q now) rows < l.daily_quota

module _ (q : Request) (l : Limits) (now : ℕ) (s : Outbox) where
  abbrev rows : List Submission
  rows = swept q now s.submissions

  -- A key that was used gives its row back; a new row needs an idle signer and free limits.
  pub data BeginEnds : Result Error (Submission × Bool) × Outbox → Type 0 where
    resumes :
        (r : Submission)
        → find (used_key q) rows ≡ some r
        → r.request_fingerprint ≡ q.request_fingerprint
        → BeginEnds (ok (r, false), record s { submissions = rows })
    inserts :
        find (used_key q) rows ≡ none
        → find (λ r. same_signer q r && active_state r.state) rows ≡ none
        → find (by_id q.submission_id) rows ≡ none
        → (l.bypass_limits ≡ true) ⊎ Within q l now rows
        → BeginEnds (
          ok (new_submission q now, true),
          record s { submissions = rows ++ new_submission q now ∷ [] },
        )
    refuses : {e : Error} → BeginEnds (err e, s)

  abbrev start : Outbox
  start = record s { submissions = rows }

  insert_ends :
      find (used_key q) rows ≡ none
      → find (λ r. same_signer q r && active_state r.state) rows ≡ none
      → (l.bypass_limits ≡ true) ⊎ Within q l now rows
      → (o : Option Submission) → find (by_id q.submission_id) rows ≡ o
      → BeginEnds (
          finish translate s
            (continue (insert_unless o (new_submission q now) start) (λ r t. (ok (r, true), t))))
  insert_ends a b c none e = inserts a b e c
  insert_ends a b c (some taken) e = refuses

  checked_ends :
      find (used_key q) rows ≡ none
      → find (λ r. same_signer q r && active_state r.state) rows ≡ none
      → BeginEnds (finish translate s (insert_preparation q l now none start))
  unfolding insert_preparation check_limits new_submission
  checked_ends a b = elim (Bool-cases l.bypass_limits) [
    | inl t ↦ simp t (insert_ends a b (inl t) (find (by_id q.submission_id) rows) refl)
    | inr t ↦
        elim (Bool-cases
          (leb l.insurer_minute_limit (count_where (insurer_in_minute q now) rows))) [
            | inl u ↦ simp (t, u) refuses
            | inr u ↦
                elim (Bool-cases
                  (leb l.client_minute_limit (count_where (client_in_minute q now) rows))) [
                    | inl v ↦ simp (t, u, v) refuses
                    | inr v ↦
                        elim (Bool-cases
                          (leb l.daily_quota (count_where (insurer_in_day q now) rows))) [
                            | inl w ↦ simp (t, u, v, w) refuses
                            | inr w ↦
                                let within : Within q l now rows = record {
                                  insurer_minute = ground arith;
                                  client_minute = ground arith;
                                  insurer_day = ground arith;
                                } in
                                simp (t, u, v, w)
                                  (insert_ends a b (inr within) (find (by_id q.submission_id) rows)
                                    refl)
                          ]
                  ]
          ]
  ]

  resumed_ends :
      (r : Submission)
      → find (used_key q) rows ≡ some r
      → BeginEnds (finish translate s (resume_or_insert q l now (some r) start))
  unfolding resume_or_insert
  resumed_ends r e = elim (Bool-cases (str_eq r.request_fingerprint q.request_fingerprint)) [
    | inl t ↦ simp t (resumes r e ((eq_iff r.request_fingerprint q.request_fingerprint).0 t))
    | inr t ↦ simp t refuses
  ]

  new_ends :
      find (used_key q) rows ≡ none
      → (busy : Option Submission) → find (λ r. same_signer q r && active_state r.state) rows ≡ busy
      → BeginEnds (finish translate s (insert_preparation q l now busy start))
  unfolding insert_preparation
  new_ends a none e = checked_ends a e
  new_ends a (some r) e = refuses

  either_ends :
      (used : Option Submission)
      → find (used_key q) rows ≡ used
      → BeginEnds (finish translate s (resume_or_insert q l now used start))
  unfolding resume_or_insert
  either_ends (some r) e = resumed_ends r e
  either_ends none e = new_ends e (find (λ r. same_signer q r && active_state r.state) rows) refl

  -- A preparation returns the row of a used key unless the request differs; or it inserts the new
  -- row where no row has the key or the identifier, no row of the signer is active and the limits
  -- are bypassed or not reached; or it raises and leaves the tables as they were.
  pub begin_preparation_ends : BeginEnds (begin_preparation q l now s)
  unfolding begin_preparation
  begin_preparation_ends = either_ends (find (used_key q) rows) refl
