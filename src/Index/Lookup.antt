-- ===== src/Index/Lookup.antt =====
-- Reading a claim back after its submission was written.
use decentralized_claims_reg.Prelude.{
  ℕ, String, Bool, true, false, inl, inr, some, List, [], ◌∷◌, ◌≡◌, refl, ap, arith, Bool-cases,
  ==-self,
}
use decentralized_claims_reg.Prelude.Lists.{find}
use decentralized_claims_reg.Prelude.Text.{str_eq_self, lower}
use decentralized_claims_reg.Index.Tables.{ClaimRow, Index, Log}
use decentralized_claims_reg.Index.Write.{
  is_claim, submitted_row, merge, upsert_claim, index_claim_submitted,
}
use decentralized_claims_reg.Index.Claims.{
  IndexedClaim, claim_from_row, has_key, read_row, get_claim,
}

module _ (l : Log) (claimant hash pointer : String) (now : ℕ) where
  abbrev new : ClaimRow
  new = submitted_row l claimant hash pointer now

  abbrev key : ClaimRow → Bool
  key = has_key l.chain_id l.contract_address l.claim_id

  -- A claim that says what the log does.
  pub record IsSubmitted (c : IndexedClaim) : Type 0 where
    pub same_claim : c.claim_id ≡ l.claim_id
    pub same_claimant : c.claimant ≡ claimant
    pub same_hash : c.claim_hash ≡ lower hash
    pub same_pointer : c.data_pointer ≡ pointer
    pub same_time : c.submitted_at ≡ l.event_timestamp

  key-new : key new ≡ true
  unfolding submitted_row
  key-new =
      ground (arith, ==-self l.chain_id, str_eq_self (lower l.contract_address), ==-self l.claim_id)

  new-IsSubmitted : IsSubmitted (claim_from_row new)
  unfolding submitted_row
  new-IsSubmitted = record {
    same_claim = refl;
    same_claimant = refl;
    same_hash = refl;
    same_pointer = refl;
    same_time = refl;
  }

  merge-IsSubmitted :
      (r : ClaimRow) → is_claim l r ≡ true → IsSubmitted (claim_from_row (merge new r))
  unfolding submitted_row merge is_claim
  merge-IsSubmitted r t = record {
    same_claim = ground (arith, t);
    same_claimant = refl;
    same_hash = refl;
    same_pointer = refl;
    same_time = refl;
  }

  key-merge : (r : ClaimRow) → is_claim l r ≡ true → key (merge new r) ≡ true
  unfolding merge is_claim
  key-merge r t = t

  key_other : (r : ClaimRow) → is_claim l r ≡ false → key r ≡ false
  unfolding is_claim
  key_other r f = f

  find-upsert_claim :
      (rows : List ClaimRow)
      → (r : ClaimRow) × (find key (upsert_claim l new rows) ≡ some r)
        × IsSubmitted (claim_from_row r)
  unfolding find upsert_claim
  find-upsert_claim [] = (new, rw key-new refl, new-IsSubmitted)
  find-upsert_claim (x ∷ rest) = elim (Bool-cases (is_claim l x)) [
    | inl t ↦ (merge new x, rw (t, key-merge x t) refl, merge-IsSubmitted x t)
    | inr f ↦
        let (r, e, h) = find-upsert_claim rest in
        let other : key x ≡ false = key_other x f in (r, rw (f, other) e, h)
  ]

  -- Whatever the tables hold, once the submission of a claim is written, the claim is read with the
  -- claimant, the hash in lower case, the pointer and the time of the log.
  pub get_claim-index_claim_submitted :
      (s : Index)
      → (c : IndexedClaim) × (get_claim l.chain_id l.contract_address l.claim_id
            (index_claim_submitted l claimant hash pointer now s).1
          ≡ some c)
        × IsSubmitted c
  unfolding get_claim index_claim_submitted
  get_claim-index_claim_submitted s =
      let (r, e, h) = find-upsert_claim s.claims in (claim_from_row r, ap read_row e, h)
