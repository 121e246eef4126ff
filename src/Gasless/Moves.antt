-- ===== src/Gasless/Moves.antt =====
-- The life of one submission: the moves that the operations may make of a row, as the module
-- comment of gasless_submission_repository.py draws them.
use decentralized_claims_reg.Prelude.{
  ℕ, String, Bool, true, false, none, some, ◌≡◌, refl, ◌⊎◌, inl, inr, ◌+◌, ◌<◌, ◌&&◌, arith,
  Bool-cases,
}
use decentralized_claims_reg.Prelude.Lists.{patch}
use decentralized_claims_reg.Gasless.Records.{
  preparing, prepared, authorized, broadcast, state_eq, Request, Submission, SignedRelayTransaction,
}
use decentralized_claims_reg.Gasless.Table.{by_id}
use decentralized_claims_reg.Gasless.Prepare.{
  ForwardRequest, same_signer, stale_preparation, stale_signature, fail_lease, expire,
  new_submission, prepare, fail_with, lapse, overdue, owned,
}
use decentralized_claims_reg.Gasless.Relay.{
  record_signature, overdue_authorization, record_signed, record_broadcast, in_flight,
  record_replacement, confirm, relayable, note_error,
}

pub data Move (r : Submission) : Submission → Type 0 where
  stay : Move r r
  lease_lost : (now : ℕ) → r.state ≡ preparing → Move r (fail_lease now r)
  expires : (now : ℕ) → (r.state ≡ prepared) ⊎ (r.state ≡ authorized) → Move r (expire now r)
  prepares : (f : ForwardRequest) (now : ℕ) → r.state ≡ preparing → Move r (prepare f now r)
  gives_up : (code : String) (now : ℕ) → r.state ≡ preparing → Move r (fail_with code now r)
  authorizes :
      (signature : String) (now : ℕ)
      → r.state ≡ prepared
      → Move r (record_signature signature now r)
  signs :
      (relayer : String) (t : SignedRelayTransaction) (now : ℕ)
      → r.state ≡ authorized
      → r.raw_transaction ≡ none
      → Move r (record_signed relayer t now r)
  broadcasts : (now : ℕ) → in_flight r.state ≡ true → Move r (record_broadcast now r)
  replaces :
      (t : SignedRelayTransaction) (now fee tip : ℕ)
      → r.state ≡ broadcast
      → r.relayer_nonce ≡ some t.nonce
      → r.max_fee_per_gas ≡ some fee
      → r.max_priority_fee_per_gas ≡ some tip
      → fee < t.max_fee_per_gas
      → tip < t.max_priority_fee_per_gas
      → Move r (record_replacement t (r.relay_attempts + 1) now r)
  confirms :
      (hash : String) (block claim now : ℕ)
      → in_flight r.state ≡ true
      → Move r (confirm hash block claim now r)
  errs :
      (code : String) (terminal : Bool) (now : ℕ)
      → relayable r.state ≡ true
      → Move r (note_error code terminal now r)

-- What `begin_preparation` inserts.
abbrev pub IsNew : Submission → Type 0
IsNew r = (q : Request) × (now : ℕ) × (r ≡ new_submission q now)

module _ (p : Submission → Bool) (f : Submission → Submission) (x : Submission) where
  pub patch-Move : (p x ≡ true → Move x (f x)) → Move x (patch p f x)
  patch-Move h = elim (Bool-cases (p x)) [ inl t ↦ rw t (h t) | inr t ↦ rw t stay ]

sweep_state :
    (q : Request) (now : ℕ) (x : Submission)
    → (same_signer q x && stale_preparation now x) ≡ true
    → x.state ≡ preparing
unfolding stale_preparation
sweep_state q now x h = ground arith

stale_state :
    (now : ℕ) (x : Submission)
    → stale_signature now x ≡ true
    → (x.state ≡ prepared) ⊎ (x.state ≡ authorized)
unfolding stale_signature
stale_state now x h = ground arith

fail_lease_not_stale : (now : ℕ) (x : Submission) → stale_signature now (fail_lease now x) ≡ false
unfolding stale_signature fail_lease
fail_lease_not_stale now x = refl

-- The two sweeps of `begin_preparation` make one move of a row: a row that lost its lease has no
-- deadline to miss.
pub swept-Move :
    (q : Request) (now : ℕ) (x : Submission)
    → let y = patch (λ r. same_signer q r && stale_preparation now r) (fail_lease now) x in
      Move x (patch (λ r. same_signer q r && stale_signature now r) (expire now) y)
swept-Move q now x = elim (Bool-cases (same_signer q x && stale_preparation now x)) [
  | inl t ↦
      let y : Submission = fail_lease now x in
      let kept : (same_signer q y && stale_signature now y) ≡ false =
        ground (arith, fail_lease_not_stale now x) in
      rw t (rw kept (lease_lost now (sweep_state q now x t)))
  | inr t ↦ rw t (
      patch-Move (λ r. same_signer q r && stale_signature now r) (expire now) x
        (λ h. expires now (stale_state now x (ground arith))))
]

pub mark_prepared-Move :
    (i : ℕ) (f : ForwardRequest) (now : ℕ) (x : Submission)
    → Move x (patch (λ r. by_id i r && state_eq r.state preparing) (prepare f now) x)
mark_prepared-Move i f now x =
    patch-Move (λ r. by_id i r && state_eq r.state preparing) (prepare f now) x
      (λ h. prepares f now (ground arith))

pub fail_with-Move :
    (i : ℕ) (code : String) (now : ℕ) (x : Submission)
    → Move x (patch (λ r. by_id i r && state_eq r.state preparing) (fail_with code now) x)
fail_with-Move i code now x =
    patch-Move (λ r. by_id i r && state_eq r.state preparing) (fail_with code now) x
      (λ h. gives_up code now (ground arith))

overdue_state :
    (now : ℕ) (x : Submission)
    → overdue now x ≡ true
    → (x.state ≡ preparing) ⊎ ((x.state ≡ prepared) ⊎ (x.state ≡ authorized))
unfolding overdue stale_preparation
overdue_state now x h = ground arith

module _ (now : ℕ) (x : Submission) where
  lapse_preparing : x.state ≡ preparing → lapse now x ≡ fail_lease now x
  unfolding lapse
  lapse_preparing h = ground arith

  lapse_signable : (x.state ≡ prepared) ⊎ (x.state ≡ authorized) → lapse now x ≡ expire now x
  unfolding lapse
  lapse_signable h = ground arith

pub lapse-Move :
    (i : ℕ) (c : String) (now : ℕ) (x : Submission)
    → Move x (patch (λ r. owned i c r && overdue now r) (lapse now) x)
lapse-Move i c now x =
    patch-Move (λ r. owned i c r && overdue now r) (lapse now) x
      λ h. elim (overdue_state now x (ground arith)) [
        | inl s ↦ rw (lapse_preparing now x s) (lease_lost now s)
        | inr s ↦ rw (lapse_signable now x s) (expires now s)
      ]

pub overdue_authorization-Move :
    (now : ℕ) (x : Submission) → Move x (patch (overdue_authorization now) (expire now) x)
unfolding overdue_authorization
overdue_authorization-Move now x =
    patch-Move (overdue_authorization now) (expire now) x (λ h. expires now (inr (ground arith)))

pub confirm-Move :
    (i : ℕ) (hash : String) (block claim now : ℕ) (x : Submission)
    → Move x (patch (λ r. by_id i r && in_flight r.state) (confirm hash block claim now) x)
confirm-Move i hash block claim now x =
    patch-Move (λ r. by_id i r && in_flight r.state) (confirm hash block claim now) x
      (λ h. confirms hash block claim now (ground arith))

pub broadcast-Move :
    (i now : ℕ) (x : Submission)
    → Move x (patch (λ r. by_id i r && in_flight r.state) (record_broadcast now) x)
broadcast-Move i now x =
    patch-Move (λ r. by_id i r && in_flight r.state) (record_broadcast now) x
      (λ h. broadcasts now (ground arith))

pub note_error-Move :
    (i : ℕ) (code : String) (terminal : Bool) (now : ℕ) (x : Submission)
    → Move x (patch (λ r. by_id i r && relayable r.state) (note_error code terminal now) x)
note_error-Move i code terminal now x =
    patch-Move (λ r. by_id i r && relayable r.state) (note_error code terminal now) x
      (λ h. errs code terminal now (ground arith))
