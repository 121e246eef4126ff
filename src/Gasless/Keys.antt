-- ===== src/Gasless/Keys.antt =====
-- The two unique indexes of `gasless_claim_submissions` in 005_gasless_claim_submissions.sql: one
-- row for each idempotency key of a credential, and one active row for each signer of a forwarder.
use decentralized_claims_reg.Prelude.{
  ℕ, true, false, none, List, [], ◌∷◌, ◌++◌, ◌≡◌, refl, ◌∙◌, ◌&&◌, arith,
}
use decentralized_claims_reg.Prelude.Lists.{
  find, All-zip, All-imp, AllPairs, AllPairs-append_one, Grows, Grows-AllPairs, find-none,
}
use decentralized_claims_reg.Prelude.Text.{lower, lower-lower, eq_iff}
use decentralized_claims_reg.Gasless.Records.{Request, Submission, active_state}
use decentralized_claims_reg.Gasless.Prepare.{
  same_signer, used_key, fail_lease, expire, new_submission, prepare, fail_with,
}
use decentralized_claims_reg.Gasless.Relay.{
  record_signature, record_signed, record_broadcast, in_flight, record_replacement, confirm,
  relayable, note_error,
}
use decentralized_claims_reg.Gasless.Moves
use decentralized_claims_reg.Gasless.Moves.{Move}

-- `UNIQUE (credential_id, idempotency_key_hash)`
abbrev pub SameKey : Request → Request → Type 0
SameKey q r =
    (q.credential_id ≡ r.credential_id) × (q.idempotency_key_hash ≡ r.idempotency_key_hash)

-- The columns of `gasless_claim_submissions_active_signer_idx`.
abbrev pub SameSigner : Request → Request → Type 0
SameSigner q r =
    (q.chain_id ≡ r.chain_id)
    × (lower q.forwarder_address ≡ lower r.forwarder_address)
    × (lower q.signer_address ≡ lower r.signer_address)

-- Two rows that neither index refuses.
pub record Apart (r s : Submission) : Type 0 where
  pub keys : ¬ SameKey r.request s.request
  pub signers :
      active_state r.state ≡ true → active_state s.state ≡ true → ¬ SameSigner r.request s.request

abbrev pub HasKeys : List Submission → Type 0
HasKeys = AllPairs Apart

Move-request : {r r' : Submission} → Move r r' → r'.request ≡ r.request
unfolding fail_lease expire prepare fail_with record_signature record_signed record_broadcast
    record_replacement confirm note_error
Move-request Moves.stay = refl
Move-request (Moves.lease_lost now e) = refl
Move-request (Moves.expires now e) = refl
Move-request (Moves.prepares f now e) = refl
Move-request (Moves.gives_up code now e) = refl
Move-request (Moves.authorizes signature now e) = refl
Move-request (Moves.signs relayer t now e e') = refl
Move-request (Moves.broadcasts now e) = refl
Move-request (Moves.replaces t now fee tip e n f p a b) = refl
Move-request (Moves.confirms hash block claim now e) = refl
Move-request (Moves.errs code ended now e) = refl

-- No move makes an ended submission active.
Move-active :
    {r r' : Submission} → Move r r' → active_state r'.state ≡ true → active_state r.state ≡ true
unfolding in_flight relayable fail_lease expire prepare fail_with record_signature record_signed
    record_broadcast record_replacement confirm note_error
Move-active Moves.stay h = h
Move-active (Moves.lease_lost now e) h = grind arith
Move-active (Moves.expires now e) h = grind arith
Move-active (Moves.prepares f now e) h = grind arith
Move-active (Moves.gives_up code now e) h = grind arith
Move-active (Moves.authorizes signature now e) h = grind arith
Move-active (Moves.signs relayer t now e e') h = grind arith
Move-active (Moves.broadcasts now e) h = grind arith
Move-active (Moves.replaces t now fee tip e n f p a b) h = grind arith
Move-active (Moves.confirms hash block claim now e) h = grind arith
Move-active (Moves.errs code ended now e) h = grind arith

Move-Apart : (r r' s s' : Submission) → Move r r' → Move s s' → Apart r s → Apart r' s'
Move-Apart r r' s s' m n h = record {
  keys = rw (Move-request m, Move-request n) h.keys;
  signers =
      λ a b. rw (Move-request m, Move-request n) (h.signers (Move-active m a) (Move-active n b));
}

pub moved-HasKeys :
    (rows ys : List Submission) → Grows Move (λ _. ⊥) rows ys → HasKeys rows → HasKeys ys
moved-HasKeys rows ys = Grows-AllPairs Move Apart rows ys Move-Apart

-- A row that the two lookups of `begin_preparation` pass over is apart from what it inserts.
new-Apart :
    (q : Request) (now : ℕ) (x : Submission)
    → used_key q x ≡ false
    → (same_signer q x && active_state x.state) ≡ false
    → Apart x (new_submission q now)
unfolding used_key same_signer new_submission
new-Apart q now x free idle = record {
  keys = λ (c, k).
      let e = (eq_iff x.credential_id q.credential_id).1 c in
      let e' = (eq_iff x.idempotency_key_hash q.idempotency_key_hash).1 k in ground arith;
  signers = λ a _ (c, f, s).
      let e =
        (eq_iff (lower x.forwarder_address) (lower q.forwarder_address)).1
          (f ∙ lower-lower q.forwarder_address) in
      let e' = (eq_iff (lower x.signer_address) (lower q.signer_address)).1 s in ground arith;
}

pub append-HasKeys :
    (q : Request) (now : ℕ) (rows : List Submission)
    → find (used_key q) rows ≡ none
    → find (λ r. same_signer q r && active_state r.state) rows ≡ none
    → HasKeys rows
    → HasKeys (rows ++ new_submission q now ∷ [])
append-HasKeys q now rows free idle h =
    AllPairs-append_one Apart rows (new_submission q now)
      (All-imp (λ x. (used_key q x ≡ false) × ((same_signer q x && active_state x.state) ≡ false))
        (λ x. Apart x (new_submission q now)) rows (λ x k. new-Apart q now x k.0 k.1)
        (All-zip (λ x. used_key q x ≡ false)
          (λ x. (same_signer q x && active_state x.state) ≡ false) rows
          (find-none (used_key q) rows free)
          (find-none (λ r. same_signer q r && active_state r.state) rows idle)))
      h
