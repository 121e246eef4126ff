-- ===== src/Relayer/Grounds.antt =====
-- Why the relayer may make a call of the repository.
use decentralized_claims_reg.Prelude.{ℕ, String, Bool, true, false, none, some, List, ◌≡◌, ◌⊎◌}
use decentralized_claims_reg.Postgres.{ok}
use decentralized_claims_reg.Gasless.Records.{
  Submission, authorized, signed, confirmed, state_eq, SignedRelayTransaction, Error,
}
use decentralized_claims_reg.Postgres.{Result}
use decentralized_claims_reg.Gasless.Run.{
  Call, begins, is_prepared, fails, reads, authorizes, lists, signs, broadcasts, replaces, confirms,
  errs,
}
use decentralized_claims_reg.Relayer.Worker.{
  Receipt, Confirmation, Signer, Worker, text_of, is_stuck, failure,
}

module _ (k : Worker) where
  -- The chain gave this receipt.
  abbrev pub Found : Receipt → Type 0
  Found receipt =
      (sent : List String) × (hash : String) × (k.chain.receipt sent hash ≡ ok (some receipt))

  -- An authorized row is signed by the chain's signer for it, for the chain's account and from the
  -- nonce that the chain reported.
  pub record MaySign (i : ℕ) (relayer : String) (pending : ℕ) (sign : Signer) : Type 0 where
    pub row : Submission
    pub same_row : row.submission_id ≡ i
    pub is_authorized : row.state ≡ authorized
    pub own_account : relayer ≡ k.chain.address
    pub prepared : (sent : List String) × (k.chain.prepare_relay_signer sent row none ≡ ok sign)
    pub reported : (sent : List String) × (k.chain.pending_nonce sent ≡ ok pending)

  -- A signed row becomes broadcast when the network took its bytes, or has a receipt already.
  pub record MayBroadcast (i : ℕ) : Type 0 where
    pub row : Submission
    pub same_row : row.submission_id ≡ i
    pub is_signed : row.state ≡ signed
    pub taken :
        ((sent : List String) × (k.chain.send sent
              (text_of row.raw_transaction)
              (text_of row.transaction_hash)
            ≡ ok tt))
        ⊎ ((receipt : Receipt) × Found receipt)

  -- Only a stuck row that is not confirmed is replaced, by the chain's signer for higher fees.
  pub record MayReplace (now i : ℕ) (sign : ℕ → ℕ → ℕ → Result Error SignedRelayTransaction)
      : Type 0 where
    pub row : Submission
    pub same_row : row.submission_id ≡ i
    pub unconfirmed : state_eq row.state confirmed ≡ false
    pub stuck : is_stuck k now row ≡ true
    pub fee : ℕ
    pub tip : ℕ
    pub signer : Signer
    pub old_fee : row.max_fee_per_gas ≡ some fee
    pub old_tip : row.max_priority_fee_per_gas ≡ some tip
    pub prepared :
        (sent : List String) × (k.chain.prepare_relay_signer sent row (some (fee, tip)) ≡ ok signer)
    pub same_signer : sign ≡ (λ nonce _ _. signer nonce)

  -- A row is confirmed with what the chain says of a receipt that it gave and that is deep enough.
  pub record MayConfirm (i : ℕ) (hash : String) (block claim : ℕ) : Type 0 where
    pub row : Submission
    pub same_row : row.submission_id ≡ i
    pub receipt : Receipt
    pub found : Found receipt
    pub deep :
        (sent : List String) × (k.chain.has_confirmations sent receipt k.confirmation_blocks
          ≡ ok true)
    pub result : Confirmation
    pub judged : (sent : List String) × (k.chain.confirmation sent row receipt ≡ ok result)
    pub same_hash : hash ≡ result.transaction_hash
    pub same_block : block ≡ result.block_number
    pub same_claim : claim ≡ result.claim_id

  -- An error is recorded under the code of its message.
  pub record MayNote (code : String) (terminal : Bool) : Type 0 where
    pub message : String
    pub classified : failure message ≡ (code, terminal)

  abbrev pub May : ℕ → Call → Type 0
  May now (begins q l) = ⊥
  May now (is_prepared i f) = ⊥
  May now (fails i code) = ⊥
  May now (reads i c) = ⊥
  May now (authorizes i c signature) = ⊥
  May now (lists limit) = Unit
  May now (signs i relayer pending sign) = MaySign i relayer pending sign
  May now (broadcasts i) = MayBroadcast i
  May now (replaces i sign) = MayReplace now i sign
  May now (confirms i hash block claim) = MayConfirm i hash block claim
  May now (errs i code terminal) = MayNote code terminal

  -- A call at this time that the relayer has grounds for.
  abbrev pub Grounded : ℕ → ℕ × Call → Type 0
  Grounded now (t, c) = (t ≡ now) × May now c
