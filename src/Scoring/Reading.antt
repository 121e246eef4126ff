-- ===== src/Scoring/Reading.antt =====
-- How the reading of a claim document ends.
use decentralized_claims_reg.Prelude.{String, ◌≡◌, refl, ◌⊎◌, inl, inr, Bool-cases, Option-cases}
use decentralized_claims_reg.Prelude.Text.{str_eq, lower, remove_prefix}
use decentralized_claims_reg.Postgres.{Result, ok, err}
use decentralized_claims_reg.Postgres.Rules.{Result-cases}
use decentralized_claims_reg.Listener.Events.{Message}
use decentralized_claims_reg.Scoring.Duplicates.{Claim}
use decentralized_claims_reg.Scoring.World.{
  Failure, retryable, Principal, insurer_of, authorized_claimant, Verification, verified,
  not_authorized, broken, Services, World,
}
use decentralized_claims_reg.Scoring.Handle.{verify_claim_payload, check_identity, read_claim}

Verification-cases :
    (x : Verification)
    → ((p : Principal) × (x ≡ verified p))
      ⊎ ((x ≡ not_authorized) ⊎ ((m : String) × (x ≡ broken m)))
Verification-cases (verified p) = inl (p, refl)
Verification-cases not_authorized = inr (inl refl)
Verification-cases (broken m) = inr (inr (m, refl))

module _ {C : Type 0} (v : Services C) (e : Message) (w : World C) where
  -- Reading and verifying the document changes nothing.
  abbrev pub ReadEnds : Result Failure Claim × World C → Type 0
  ReadEnds out = ((c : Claim) × (out ≡ (ok c, w))) ⊎ ((x : Failure) × (out ≡ (err x, w)))

  pub read_claim_ends : ReadEnds (read_claim v e w)
  unfolding read_claim verify_claim_payload check_identity
  read_claim_ends = elim (Result-cases (v.download_pointer e.data_pointer)) [
    | inr (m, lost) ↦ simp lost (inr (retryable m, refl))
    | inl (payload, got) ↦
        elim (Bool-cases (
          str_eq (lower (remove_prefix "0x" (v.keccak payload)))
            (lower (remove_prefix "0x" e.claim_hash)))) [
              | inr other ↦ simp (got, other) (inr (_, refl))
              | inl same ↦ elim (Option-cases (v.validate_json payload)) [
                | inl bad ↦ simp (got, same, bad) (inr (_, refl))
                | inr (c, valid) ↦ elim (Verification-cases (v.verify_claim c)) [
                  | inr (inl refused) ↦ simp (got, same, valid, refused) (inr (_, refl))
                  | inr (inr (m, raised)) ↦ simp (got, same, valid, raised) (inr (_, refl))
                  | inl (p, signed) ↦ elim (Bool-cases (str_eq (insurer_of p) c.insurer_id)) [
                    | inr insurer ↦ simp (got, same, valid, signed, insurer) (inr (_, refl))
                    | inl insurer ↦
                        elim (Bool-cases
                          (str_eq (lower (authorized_claimant p)) (lower e.claimant))) [
                            | inr claimant ↦
                                simp (got, same, valid, signed, insurer, claimant) (inr (_, refl))
                            | inl claimant ↦
                                simp (got, same, valid, signed, insurer, claimant) (inl (c, refl))
                          ]
                  ]
                ]
              ]
            ]
  ]
