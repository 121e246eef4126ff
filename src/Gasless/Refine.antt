-- ===== src/Gasless/Refine.antt =====
-- Every operation moves each row along `Move`, and keeps the identifiers and the keys unique.
use decentralized_claims_reg.Prelude.{
  ℕ, String, Bool, true, some, List, [], ◌∷◌, ◌≡◌, refl, sym, ap, ◌∙◌, subst, ◌&&◌, ◌+◌, arith,
  ==→eq,
}
use decentralized_claims_reg.Prelude.Lists.{
  update, patch, find, Grows, Grows-refl, Grows-update, Grows-update_all, Grows-update_twice,
  Grows-append, Grows-imp, All-trivial,
}
use decentralized_claims_reg.Gasless.Records.{Submission, Request, Outbox, preparing, state_eq}
use decentralized_claims_reg.Gasless.Table.{by_id}
use decentralized_claims_reg.Gasless.Prepare.{
  same_signer, stale_preparation, stale_signature, fail_lease, expire, new_submission, prepare,
  fail_with, lapse, overdue, owned,
}
use decentralized_claims_reg.Gasless.Relay.{
  record_signature, overdue_authorization, record_signed, record_broadcast, record_replacement,
  confirm, relayable, note_error, record_relay_error,
}
use decentralized_claims_reg.Gasless.Cases.{
  swept, begin_preparation_cases, mark_prepared_cases, get_for_credential_cases,
  mark_preparation_failed_lem,
}
use decentralized_claims_reg.Gasless.RelayCases.{
  authorize_cases, list_relay_candidates_cases, persist_signed_transaction_cases,
  mark_broadcast_cases, persist_replacement_cases, mark_confirmed_cases,
}
use decentralized_claims_reg.Gasless.Ids.{
  UniqueIds, UniqueIds-update, UniqueIds-append, find_unique,
}
use decentralized_claims_reg.Gasless.Moves.{
  Move, stay, IsNew, patch-Move, swept-Move, mark_prepared-Move, fail_with-Move, lapse-Move,
  overdue_authorization-Move, confirm-Move, broadcast-Move, note_error-Move,
}
use decentralized_claims_reg.Gasless.Keys.{HasKeys, moved-HasKeys, append-HasKeys}
use decentralized_claims_reg.Gasless.Run.{
  Call, begins, is_prepared, fails, reads, authorizes, lists, signs, broadcasts, replaces, confirms,
  errs, step,
}

-- The rows of `t` are those of `s` after one move each, and new rows; the identifiers are unique,
-- and the indexes hold where they held.
pub record Follows (s t : Outbox) : Type 0 where
  pub unique : UniqueIds t.submissions
  pub grows : Grows Move IsNew s.submissions t.submissions
  pub keys : HasKeys s.submissions → HasKeys t.submissions

swept-Grows :
    (q : Request) (now : ℕ) (rows : List Submission) → Grows Move (λ _. ⊥) rows (swept q now rows)
swept-Grows q now rows =
    Grows-update_twice Move (λ _. ⊥) (λ r. same_signer q r && stale_preparation now r)
      (λ r. same_signer q r && stale_signature now r) (fail_lease now) (expire now) rows
      (swept-Move q now)

swept-UniqueIds :
    (q : Request) (now : ℕ) (rows : List Submission) → UniqueIds rows → UniqueIds (swept q now rows)
unfolding fail_lease expire
swept-UniqueIds q now rows u =
    UniqueIds-update (λ r. same_signer q r && stale_signature now r) (expire now) _ (λ r. refl)
      (UniqueIds-update (λ r. same_signer q r && stale_preparation now r) (fail_lease now) rows
        (λ r. refl) u)

-- Moves of the rows without a new one.
moved :
    (rows ys : List Submission)
    → Grows Move (λ _. ⊥) rows ys
    → Grows Move IsNew rows ys × (HasKeys rows → HasKeys ys)
moved rows ys g = (
  Grows-imp (λ _. Unit) Move Move (λ _. ⊥) IsNew rows ys (λ x y _ m. m) (λ y none. absurd none)
      (All-trivial rows) g,
  moved-HasKeys rows ys g,
)

module _ (s : Outbox) (u : UniqueIds s.submissions) where
  follows :
      (t : Outbox)
      → UniqueIds t.submissions
      → Grows Move (λ _. ⊥) s.submissions t.submissions
      → Follows s t
  follows t v g =
      let m = moved s.submissions t.submissions g in record { unique = v; grows = m.0; keys = m.1 }

  unchanged : Follows s s
  unchanged = follows s u (Grows-refl Move (λ _. ⊥) s.submissions (λ r. stay))

  -- An update whose every row makes a move.
  by_rows :
      (p : Submission → Bool) (f : Submission → Submission)
      → ((r : Submission) → (f r).request ≡ r.request)
      → ((x : Submission) → Move x (patch p f x))
      → (t : Outbox) → t.submissions ≡ update p f s.submissions
      → Follows s t
  by_rows p f k m t e =
      follows t (rw e (UniqueIds-update p f s.submissions k u))
        (rw e (Grows-update_all Move (λ _. ⊥) p f s.submissions m))

  -- An update of the one row `r` that was found under the identifier.
  by_found :
      (p : Submission → Bool) (i : ℕ) (r : Submission) (f : Submission → Submission)
      → ((x : Submission) → p x ≡ true → x.submission_id ≡ i)
      → find p s.submissions ≡ some r
      → ((r : Submission) → (f r).request ≡ r.request)
      → Move r (f r)
      → (t : Outbox) → t.submissions ≡ update (by_id i) f s.submissions
      → Follows s t
  by_found p i r f has e k m t same_rows =
      follows t (rw same_rows (UniqueIds-update (by_id i) f s.submissions k u)) (
        rw same_rows (
          Grows-update Move (λ _. ⊥) (λ x. x.submission_id ≡ i → x ≡ r) (by_id i) f s.submissions
            (λ x same.
              patch-Move (by_id i) f x
                (λ h. subst (λ y. Move y (f y)) (sym (same (==→eq x.submission_id i h))) m))
            (find_unique p i s.submissions r has u e)))

  begin-Follows :
      (q : Request) (now : ℕ) → Follows s (record s { submissions = swept q now s.submissions })
  begin-Follows q now =
      follows (record s { submissions = swept q now s.submissions })
        (swept-UniqueIds q now s.submissions u) (swept-Grows q now s.submissions)

  owned_id : (i : ℕ) (c : String) (x : Submission) → owned i c x ≡ true → x.submission_id ≡ i
  unfolding owned
  owned_id i c x h = ground arith

  new_id : (q : Request) (now : ℕ) → (new_submission q now).submission_id ≡ q.submission_id
  unfolding new_submission
  new_id q now = refl

  pub step-Follows : (c : ℕ × Call) → Follows s (step s c)
  unfolding step prepare fail_with lapse fail_lease expire record_signature record_signed
      record_broadcast record_replacement confirm note_error record_relay_error
  step-Follows (now, begins q l) =
      let b = begin-Follows q now in
      begin_preparation_cases (Follows s) s unchanged q l now b λ used idle free. record {
        unique =
            UniqueIds-append (swept q now s.submissions) (new_submission q now) (rw new_id free)
              b.unique;
        grows =
            Grows-append Move IsNew s.submissions (swept q now s.submissions)
              (new_submission q now ∷ []) b.grows ((q, now, refl), tt);
        keys = λ h. append-HasKeys q now (swept q now s.submissions) used idle (b.keys h);
      }
  step-Follows (now, is_prepared i f) =
      mark_prepared_cases (Follows s) s unchanged i f now
        (by_rows _ (prepare f now) (λ r. refl) (mark_prepared-Move i f now) _ refl)
  step-Follows (now, fails i code) = rw mark_preparation_failed_lem (
      by_rows (λ r. by_id i r && state_eq r.state preparing) (fail_with code now) (λ r. refl)
        (fail_with-Move i code now) _ refl)
  step-Follows (now, reads i c) = get_for_credential_cases (Follows s) s unchanged i c now (
      by_rows (λ r. owned i c r && overdue now r) (lapse now) (λ r. ground arith)
        (lapse-Move i c now) _ refl)
  step-Follows (now, authorizes i c signature) =
      authorize_cases (Follows s) s unchanged i c signature now λ r found prepared_state _.
        by_found (owned i c) i r (record_signature signature now) (owned_id i c) found (λ r. refl)
          (Move.authorizes signature now prepared_state) _ refl
  step-Follows (now, lists limit) = list_relay_candidates_cases (Follows s) s unchanged limit now (
      by_rows (overdue_authorization now) (expire now) (λ r. refl) (overdue_authorization-Move now)
        _ refl)
  step-Follows (now, signs i relayer pending sign) =
      persist_signed_transaction_cases (Follows s) s unchanged i relayer pending sign now
        λ r t found unsigned state _ _.
          by_found (by_id i) i r (record_signed relayer t now) (λ x. ==→eq x.submission_id i) found
            (λ r. refl) (Move.signs relayer t now state unsigned) _ refl
  step-Follows (now, broadcasts i) =
      mark_broadcast_cases (Follows s) s unchanged i now
        λ r _. by_rows _ (record_broadcast now) (λ r. refl) (broadcast-Move i now) _ refl
  step-Follows (now, replaces i sign) =
      persist_replacement_cases (Follows s) s unchanged i sign now
        λ r t nonce fee tip found state n f p same_nonce more_fee more_tip _.
          by_found (by_id i) i r (record_replacement t (r.relay_attempts + 1) now)
            (λ x. ==→eq x.submission_id i) found (λ r. refl)
            (Move.replaces t now fee tip state (n ∙ ap some (sym same_nonce)) f p more_fee more_tip)
            _ refl
  step-Follows (now, confirms i hash block claim) =
      mark_confirmed_cases (Follows s) s unchanged i hash block claim now (
        by_rows _ (confirm hash block claim now) (λ r. refl) (confirm-Move i hash block claim now) _
          refl)
  step-Follows (now, errs i code terminal) =
      by_rows (λ r. by_id i r && relayable r.state) (note_error code terminal now) (λ r. refl)
        (note_error-Move i code terminal now) _ refl
