-- ===== src/Gasless/Authorize.antt =====
-- How `authorize` ends.
use decentralized_claims_reg.Prelude.{
  ℕ, String, true, false, Option, none, some, ◌≡◌, refl, ◌/◌, inl, inr, arith, Bool-cases,
}
use decentralized_claims_reg.Prelude.Lists.{find, update}
use decentralized_claims_reg.Postgres.{Result, ok, err, finish, continue, or_raise}
use decentralized_claims_reg.Gasless.Records.{
  Submission, Outbox, Error, prepared, state_eq, not_found,
}
use decentralized_claims_reg.Gasless.Table.{by_id, translate, returned}
use decentralized_claims_reg.Gasless.Prepare.{second, owned}
use decentralized_claims_reg.Gasless.Relay.{
  holds, deadline_passed, has_authorization, record_signature, authorize_record, authorize,
}

module _ (i : ℕ) (credential signature : String) (now : ℕ) (s : Outbox) where
  pub data AuthorizeEnds : Result Error Submission × Outbox → Type 0 where
    replays :
        {r : Submission}
        → find (owned i credential) s.submissions ≡ some r
        → has_authorization r.state ≡ true
        → holds r.insurer_signature signature ≡ true
        → AuthorizeEnds (ok r, s)
    records :
        {r x : Submission}
        → find (owned i credential) s.submissions ≡ some r
        → r.state ≡ prepared
        → deadline_passed r.deadline (now / second) ≡ false
        → find (by_id i) s.submissions ≡ some x
        → AuthorizeEnds (
          ok (record_signature signature now x),
          record s {
            submissions = update (by_id i) (record_signature signature now) s.submissions;
          },
        )
    refuses : {e : Error} → AuthorizeEnds (err e, s)

  stored_ends :
      (r : Submission) (x : Option Submission)
      → find (owned i credential) s.submissions ≡ some r
      → r.state ≡ prepared
      → deadline_passed r.deadline (now / second) ≡ false
      → find (by_id i) s.submissions ≡ x
      → AuthorizeEnds (
          finish translate s (
            or_raise (returned (record_signature signature now) x) not_found (record s {
              submissions = update (by_id i) (record_signature signature now) s.submissions;
            })))
  stored_ends r (some x) f p d e = records f p d e
  stored_ends r none f p d e = refuses

  record_ends :
      (r : Submission)
      → find (owned i credential) s.submissions ≡ some r
      → AuthorizeEnds (finish translate s (authorize_record i signature now r s))
  unfolding authorize_record
  record_ends r f = elim (Bool-cases (has_authorization r.state)) [
    | inl t ↦ elim (Bool-cases (holds r.insurer_signature signature)) [
      | inl u ↦ simp (t, u) (replays f t u)
      | inr u ↦ simp (t, u) refuses
    ]
    | inr t ↦ elim (Bool-cases (state_eq r.state prepared)) [
      | inl u ↦ elim (Bool-cases (deadline_passed r.deadline (now / second))) [
        | inl late ↦ simp (t, u, late) refuses
        | inr in_time ↦
            simp (t, u, in_time)
              (stored_ends r (find (by_id i) s.submissions) f (ground arith) in_time refl)
      ]
      | inr u ↦ simp (t, u) refuses
    ]
  ]

  found_ends :
      (o : Option Submission)
      → find (owned i credential) s.submissions ≡ o
      → AuthorizeEnds (
          finish translate s (continue (or_raise o not_found s) (authorize_record i signature now)))
  found_ends (some r) e = record_ends r e
  found_ends none e = refuses

  -- An authorization returns a row of the credential that holds the very signature, changing
  -- nothing; or it records the signature of a prepared row whose deadline has not passed; or it
  -- raises and leaves the tables as they were, also where it expires a late row.
  pub authorize_ends : AuthorizeEnds (authorize i credential signature now s)
  unfolding authorize
  authorize_ends = found_ends (find (owned i credential) s.submissions) refl
