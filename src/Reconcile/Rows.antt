-- ===== src/Reconcile/Rows.antt =====
-- What holds of some or of all claims that the index lists, and of its rows.
use decentralized_claims_reg.Prelude.{
  Bool, true, List, [], ◌∷◌, ◌≡◌, ◌⊎◌, inl, inr, arith, ltb, Bool-cases,
}
use decentralized_claims_reg.Prelude.Lists.{keep, All, Some}
use decentralized_claims_reg.Index.Tables.{ClaimRow}
use decentralized_claims_reg.Index.Claims.{
  IndexedClaim, claim_from_row, claims_from_rows, place, highest_first,
}

-- What holds of some row or of all rows, through the ordering.
module _ (P : ClaimRow → Type 0) where
  pub Some-place : (r : ClaimRow) (rows : List ClaimRow) → P r ⊎ Some P rows → Some P (place r rows)
  unfolding place
  Some-place r [] h = h
  Some-place r (s ∷ rest) h = elim (Bool-cases (ltb s.claim_id r.claim_id)) [
    | inl t ↦ rw t h
    | inr f ↦ rw f (elim h [
      | inl p ↦ inr (Some-place r rest (inl p))
      | inr k ↦ elim k [ inl q ↦ inl q | inr l ↦ inr (Some-place r rest (inr l)) ]
    ])
  ]

  pub place-Some : (r : ClaimRow) (rows : List ClaimRow) → Some P (place r rows) → P r ⊎ Some P rows
  unfolding place
  place-Some r [] h = h
  place-Some r (s ∷ rest) h = elim (Bool-cases (ltb s.claim_id r.claim_id)) [
    | inl t ↦ rw t at h
    | inr f ↦
        let h' : P s ⊎ Some P (place r rest) = rw f at h in
        elim h' [
          | inl q ↦ inr (inl q)
          | inr l ↦ elim (place-Some r rest l) [ inl p ↦ inl p | inr m ↦ inr (inr m) ]
        ]
  ]

  pub Some-highest_first : (rows : List ClaimRow) → Some P rows → Some P (highest_first rows)
  unfolding highest_first
  Some-highest_first (r ∷ rest) (inl p) = Some-place r (highest_first rest) (inl p)
  Some-highest_first (r ∷ rest) (inr h) =
      Some-place r (highest_first rest) (inr (Some-highest_first rest h))
  Some-highest_first [] h = absurd h

  pub highest_first-Some : (rows : List ClaimRow) → Some P (highest_first rows) → Some P rows
  unfolding highest_first
  highest_first-Some [] h = h
  highest_first-Some (r ∷ rest) h = elim (place-Some r (highest_first rest) h) [
    | inl p ↦ inl p
    | inr k ↦ inr (highest_first-Some rest k)
  ]

  pub All-place : (r : ClaimRow) (rows : List ClaimRow) → P r → All P rows → All P (place r rows)
  unfolding place
  All-place r [] p h = (p, tt)
  All-place r (s ∷ rest) p h = elim (Bool-cases (ltb s.claim_id r.claim_id)) [
    | inl t ↦ rw t (p, h)
    | inr f ↦ rw f (h.0, All-place r rest p h.1)
  ]

  pub place-All : (r : ClaimRow) (rows : List ClaimRow) → All P (place r rows) → P r × All P rows
  unfolding place
  place-All r [] h = h
  place-All r (s ∷ rest) h = elim (Bool-cases (ltb s.claim_id r.claim_id)) [
    | inl t ↦ rw t at h
    | inr f ↦
        let h' : P s × All P (place r rest) = rw f at h in
        let (p, k) = place-All r rest h'.1 in (p, (h'.0, k))
  ]

  pub All-highest_first : (rows : List ClaimRow) → All P rows → All P (highest_first rows)
  unfolding highest_first
  All-highest_first [] h = tt
  All-highest_first (r ∷ rest) h = All-place r (highest_first rest) h.0 (All-highest_first rest h.1)

  pub highest_first-All : (rows : List ClaimRow) → All P (highest_first rows) → All P rows
  unfolding highest_first
  highest_first-All [] h = tt
  highest_first-All (r ∷ rest) h =
      let (p, k) = place-All r (highest_first rest) h in (p, highest_first-All rest k)

module _ (P : IndexedClaim → Type 0) where
  pub Some-claims :
      (rows : List ClaimRow)
      → Some (λ r. P (claim_from_row r)) rows
      → Some P (claims_from_rows rows)
  unfolding claims_from_rows
  Some-claims (r ∷ rest) (inl p) = inl p
  Some-claims (r ∷ rest) (inr h) = inr (Some-claims rest h)
  Some-claims [] h = absurd h

  pub claims-Some :
      (rows : List ClaimRow)
      → Some P (claims_from_rows rows)
      → Some (λ r. P (claim_from_row r)) rows
  unfolding claims_from_rows
  claims-Some [] h = h
  claims-Some (r ∷ rest) (inl p) = inl p
  claims-Some (r ∷ rest) (inr h) = inr (claims-Some rest h)

  pub All-claims :
      (rows : List ClaimRow) → All (λ r. P (claim_from_row r)) rows → All P (claims_from_rows rows)
  unfolding claims_from_rows
  All-claims [] h = tt
  All-claims (r ∷ rest) h = (h.0, All-claims rest h.1)

  pub claims-All :
      (rows : List ClaimRow) → All P (claims_from_rows rows) → All (λ r. P (claim_from_row r)) rows
  unfolding claims_from_rows
  claims-All [] h = tt
  claims-All (r ∷ rest) h = (h.0, claims-All rest h.1)

module _ (q : ClaimRow → Bool) (P : ClaimRow → Type 0) where
  pub Some-kept :
      (rows : List ClaimRow) → Some (λ r. (q r ≡ true) × P r) rows → Some P (keep q rows)
  unfolding keep
  Some-kept (r ∷ rest) (inl (t, p)) = rw t (inl p)
  Some-kept (r ∷ rest) (inr h) = elim (Bool-cases (q r)) [
    | inl t ↦ rw t (inr (Some-kept rest h))
    | inr f ↦ rw f (Some-kept rest h)
  ]
  Some-kept [] h = absurd h

  pub kept-Some :
      (rows : List ClaimRow) → Some P (keep q rows) → Some (λ r. (q r ≡ true) × P r) rows
  unfolding keep
  kept-Some [] h = h
  kept-Some (r ∷ rest) h = elim (Bool-cases (q r)) [
    | inl t ↦
        let h' : P r ⊎ Some P (keep q rest) = rw t at h in
        elim h' [ inl p ↦ inl (t, p) | inr k ↦ inr (kept-Some rest k) ]
    | inr f ↦ inr (kept-Some rest (rw f at h))
  ]

  pub All-kept : (rows : List ClaimRow) → All (λ r. q r ≡ true → P r) rows → All P (keep q rows)
  unfolding keep
  All-kept [] h = tt
  All-kept (r ∷ rest) h = elim (Bool-cases (q r)) [
    | inl t ↦ rw t (h.0 t, All-kept rest h.1)
    | inr f ↦ rw f (All-kept rest h.1)
  ]

  pub kept-All : (rows : List ClaimRow) → All P (keep q rows) → All (λ r. q r ≡ true → P r) rows
  unfolding keep
  kept-All [] h = tt
  kept-All (r ∷ rest) h = elim (Bool-cases (q r)) [
    | inl t ↦ let h' : P r × All P (keep q rest) = rw t at h in ((λ _. h'.0), kept-All rest h'.1)
    | inr f ↦ ((λ t. absurd (ground (arith, f, t))), kept-All rest (rw f at h))
  ]
