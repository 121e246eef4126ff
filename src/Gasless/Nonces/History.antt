-- ===== src/Gasless/Nonces/History.antt =====
-- No operation hands out a nonce twice.
use decentralized_claims_reg.Prelude.{
  ℕ, String, Bool, List, [], ◌∷◌, ◌++◌, refl, arith, ◌≤◌, ◌+◌, ◌&&◌,
}
use decentralized_claims_reg.Prelude.Lists.{
  update, All-trivial, All-append, All-imp, AllPairs-append_one,
}
use decentralized_claims_reg.Gasless.Records.{Submission, Request, Outbox, preparing, state_eq}
use decentralized_claims_reg.Gasless.Table.{by_id, next_nonce}
use decentralized_claims_reg.Gasless.Prepare.{
  same_signer, stale_preparation, stale_signature, fail_lease, expire, new_submission, prepare,
  fail_with, lapse,
}
use decentralized_claims_reg.Gasless.Relay.{
  record_signature, overdue_authorization, record_broadcast, in_flight, record_replacement, confirm,
  relayable, note_error, record_relay_error, reserved_nonce,
}
use decentralized_claims_reg.Gasless.Cases.{
  swept, begin_preparation_cases, mark_prepared_cases, get_for_credential_cases,
  mark_preparation_failed_lem,
}
use decentralized_claims_reg.Gasless.RelayCases.{
  authorize_cases, list_relay_candidates_cases, persist_signed_transaction_cases,
  mark_broadcast_cases, persist_replacement_cases, mark_confirmed_cases,
}
use decentralized_claims_reg.Gasless.Ids.{UniqueIds}
use decentralized_claims_reg.Gasless.Refine.{step-Follows}
use decentralized_claims_reg.Gasless.Run.{
  Call, begins, is_prepared, fails, reads, authorizes, lists, signs, broadcasts, replaces, confirms,
  errs, step, run,
}
use decentralized_claims_reg.Gasless.Nonces.Rows.{
  Below, DistinctNonces, HasNonces, KeepsKey, rows-Below, rows-distinct,
}
use decentralized_claims_reg.Gasless.Nonces.Sign.{signed-HasNonces}

reserved-le :
    (pending : ℕ) (r : Submission) (relayer : String) (s : Outbox)
    → next_nonce r.chain_id relayer s.nonces ≤ reserved_nonce pending r relayer s
reserved-le pending r relayer s = omega arith

module _ (s : Outbox) (u : UniqueIds s.submissions) (h : HasNonces s) where
  by_rows :
      (p : Submission → Bool) (f : Submission → Submission)
      → KeepsKey f
      → HasNonces (record s { submissions = update p f s.submissions })
  by_rows p f k = record {
    folded = h.folded;
    below = rows-Below p f k s.nonces s.submissions h.below;
    distinct = rows-distinct p f k s.submissions h.distinct;
  }

  begin-HasNonces :
      (q : Request) (now : ℕ) → HasNonces (record s { submissions = swept q now s.submissions })
  unfolding fail_lease expire
  begin-HasNonces q now = record {
    folded = h.folded;
    below =
        rows-Below (λ r. same_signer q r && stale_signature now r) (expire now)
          (λ r. (refl, refl, refl)) s.nonces _
          (rows-Below (λ r. same_signer q r && stale_preparation now r) (fail_lease now)
            (λ r. (refl, refl, refl)) s.nonces s.submissions h.below);
    distinct =
        rows-distinct (λ r. same_signer q r && stale_signature now r) (expire now)
          (λ r. (refl, refl, refl)) _
          (rows-distinct (λ r. same_signer q r && stale_preparation now r) (fail_lease now)
            (λ r. (refl, refl, refl)) s.submissions h.distinct);
  }

  -- A new row has no nonce.
  append-HasNonces :
      (rows : List Submission) (q : Request) (now : ℕ)
      → HasNonces (record s { submissions = rows })
      → HasNonces (record s { submissions = rows ++ new_submission q now ∷ [] })
  unfolding new_submission
  append-HasNonces rows q now k = record {
    folded = k.folded;
    below =
        All-append (Below s.nonces) rows (new_submission q now ∷ []) k.below
          ((λ a n ea en. cc), tt);
    distinct =
        AllPairs-append_one DistinctNonces rows (new_submission q now)
          (All-imp (λ _. Unit) (λ x. DistinctNonces x (new_submission q now)) rows
            (λ x _ a b n ec ea eb el en em. cc) (All-trivial rows))
          k.distinct;
  }

  lapse-key : (now : ℕ) → KeepsKey (lapse now)
  unfolding lapse fail_lease expire
  lapse-key now r = ground arith

  step-HasNonces : (c : ℕ × Call) → HasNonces (step s c)
  unfolding step prepare fail_with expire record_signature record_broadcast record_replacement
      confirm note_error record_relay_error
  step-HasNonces (now, begins q l) =
      begin_preparation_cases HasNonces s h q l now (begin-HasNonces q now)
        λ _ _ _. append-HasNonces (swept q now s.submissions) q now (begin-HasNonces q now)
  step-HasNonces (now, is_prepared i f) =
      mark_prepared_cases HasNonces s h i f now
        (by_rows _ (prepare f now) (λ r. (refl, refl, refl)))
  step-HasNonces (now, fails i code) = rw mark_preparation_failed_lem (
      by_rows (λ r. by_id i r && state_eq r.state preparing) (fail_with code now)
        (λ r. (refl, refl, refl)))
  step-HasNonces (now, reads i c) =
      get_for_credential_cases HasNonces s h i c now (by_rows _ (lapse now) (lapse-key now))
  step-HasNonces (now, authorizes i c signature) =
      authorize_cases HasNonces s h i c signature now
        λ r _ _ _. by_rows (by_id i) (record_signature signature now) (λ r. (refl, refl, refl))
  step-HasNonces (now, lists limit) =
      list_relay_candidates_cases HasNonces s h limit now
        (by_rows (overdue_authorization now) (expire now) (λ r. (refl, refl, refl)))
  step-HasNonces (now, signs i relayer pending sign) =
      persist_signed_transaction_cases HasNonces s h i relayer pending sign now
        λ r t found _ _ own _.
          signed-HasNonces i relayer (reserved_nonce pending r relayer s) t now r s h own
            (reserved-le pending r relayer s) u found
  step-HasNonces (now, broadcasts i) = mark_broadcast_cases HasNonces s h i now λ r _.
      let k : HasNonces (record s {
        submissions =
            update (λ r. by_id i r && in_flight r.state) (record_broadcast now) s.submissions;
      }) =
        by_rows _ (record_broadcast now) (λ r. (refl, refl, refl)) in
      record { folded = k.folded; below = k.below; distinct = k.distinct }
  step-HasNonces (now, replaces i sign) =
      persist_replacement_cases HasNonces s h i sign now λ r t nonce fee tip _ _ _ _ _ _ _ _ _.
        let k : HasNonces (record s {
          submissions =
              update (by_id i) (record_replacement t (r.relay_attempts + 1) now) s.submissions;
        }) =
          by_rows (by_id i) (record_replacement t (r.relay_attempts + 1) now)
            (λ r. (refl, refl, refl)) in
        record { folded = k.folded; below = k.below; distinct = k.distinct }
  step-HasNonces (now, confirms i hash block claim) =
      mark_confirmed_cases HasNonces s h i hash block claim now
        (by_rows _ (confirm hash block claim now) (λ r. (refl, refl, refl)))
  step-HasNonces (now, errs i code terminal) =
      by_rows (λ r. by_id i r && relayable r.state) (note_error code terminal now)
        (λ r. (refl, refl, refl))

-- From tables with unique identifiers, any calls keep it so that no two submissions of one relayer
-- on one chain have the same nonce, every nonce in use lies below the next one that its stream would
-- hand out, and the streams have folded addresses.
pub run-HasNonces :
    (s : Outbox) (cs : List (ℕ × Call))
    → UniqueIds s.submissions
    → HasNonces s
    → HasNonces (run s cs)
unfolding run
run-HasNonces s [] u h = h
run-HasNonces s (c ∷ cs) u h =
    run-HasNonces (step s c) cs (step-Follows s u c).unique (step-HasNonces s u h c)
