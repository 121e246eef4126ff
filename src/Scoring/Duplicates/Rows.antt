-- ===== src/Scoring/Duplicates/Rows.antt =====
-- The row that a recorded fingerprint leaves, and the rows that a search lists.
use decentralized_claims_reg.Prelude.{
  ℕ, String, Bool, true, false, some, List, [], ◌∷◌, map, ◌≡◌, ◌≢◌, refl, ◌∙◌, ◌⊎◌, inl, inr, arith,
  Bool-cases, Option-cases, ==-self, leb,
}
use decentralized_claims_reg.Prelude.Lists.{
  find, keep, Some, Some-keep, find-true, find-append, find-append_other, find-update,
  find-update_other, Some-imp,
}
use decentralized_claims_reg.Prelude.Text.{str_eq_self, eq_iff, lower}
use decentralized_claims_reg.Scoring.Duplicates.{
  Fingerprint, DuplicateMatch, has_claim, stored, replace_row, put, same_incident, place, order,
  match_of, search,
}

-- The row under a claim's key after `q` was recorded for it.
pub record Holds (q r : Fingerprint) : Type 0 where
  pub chain : r.chain_id ≡ q.chain_id
  pub contract : r.contract_address ≡ lower q.contract_address
  pub claim : r.claim_id ≡ q.claim_id
  pub insurer : r.insurer_id ≡ q.insurer_id
  pub version : r.fingerprint_version ≡ q.fingerprint_version
  pub incident : r.incident_fingerprint ≡ q.incident_fingerprint

abbrev pub own : Fingerprint → Fingerprint → Bool
own q = has_claim q.chain_id (lower q.contract_address) q.claim_id

own_stored : (q : Fingerprint) → own q (stored q) ≡ true
unfolding has_claim
own_stored q =
    rw (==-self q.chain_id, ==-self q.claim_id, str_eq_self (lower q.contract_address)) refl

own_replaced : (q r : Fingerprint) → own q r ≡ true → own q (replace_row q r) ≡ true
unfolding has_claim
own_replaced q r h = h

replaced-Holds : (q r : Fingerprint) → own q r ≡ true → Holds q (replace_row q r)
unfolding has_claim
replaced-Holds q r h = record {
  chain = ground arith;
  contract = (eq_iff r.contract_address (lower q.contract_address)).0 (ground arith);
  claim = ground arith;
  insurer = refl;
  version = refl;
  incident = refl;
}

find-stored : (q : Fingerprint) → find (own q) (stored q ∷ []) ≡ some (stored q)
unfolding find
find-stored q = rw (own_stored q) refl

pub find-put :
    (q : Fingerprint) (rows : List Fingerprint)
    → (r : Fingerprint) × (find (own q) (put q rows) ≡ some r) × Holds q r
unfolding put
find-put q rows = elim (Option-cases (find (own q) rows)) [
  | inl e ↦ rw e (
    stored q,
    find-append (own q) rows (stored q ∷ []) e ∙ find-stored q,
    record {
      chain = refl;
      contract = refl;
      claim = refl;
      insurer = refl;
      version = refl;
      incident = refl;
    },
  )
  | inr (old, e) ↦ rw e (
    replace_row q old,
    find-update (own q) (replace_row q) rows old (own_replaced q) e,
    replaced-Holds q old (find-true (own q) rows old e),
  )
]

-- The keys of two claims.
abbrev pub OtherClaim : Fingerprint → Fingerprint → Type 0
OtherClaim q p = q.claim_id ≢ p.claim_id

not_own :
    (q p : Fingerprint) → OtherClaim q p → (r : Fingerprint) → own q r ≡ true → own p r ≡ false
unfolding has_claim
not_own q p d r h = grind arith

pub find-put_other :
    (q p : Fingerprint) (rows : List Fingerprint)
    → OtherClaim q p
    → find (own p) (put q rows) ≡ find (own p) rows
unfolding put
find-put_other q p rows d = elim (Option-cases (find (own q) rows)) [
  | inl e ↦
      rw e (find-append_other (own p) rows (stored q) (not_own q p d (stored q) (own_stored q)))
  | inr (old, e) ↦ rw e (
      find-update_other (own p) (own q) (replace_row q) rows (not_own q p d)
        (λ r h. not_own q p d (replace_row q r) (own_replaced q r h)))
]

module _ (P : Fingerprint → Type 0) where
  place-Some :
      (r : Fingerprint) (rows : List Fingerprint) → P r ⊎ Some P rows → Some P (place r rows)
  unfolding place
  place-Some r [] h = h
  place-Some r (s ∷ rest) h = elim (Bool-cases (leb r.claim_id s.claim_id)) [
    | inl t ↦ rw t h
    | inr t ↦ rw t (elim h [
      | inl own_ ↦ inr (place-Some r rest (inl own_))
      | inr (inl first) ↦ inl first
      | inr (inr later) ↦ inr (place-Some r rest (inr later))
    ])
  ]

  pub order-Some : (rows : List Fingerprint) → Some P rows → Some P (order rows)
  unfolding order
  order-Some (r ∷ rest) (inl h) = place-Some r (order rest) (inl h)
  order-Some (r ∷ rest) (inr h) = place-Some r (order rest) (inr (order-Some rest h))
  order-Some [] h = absurd h

module _ (P : DuplicateMatch → Type 0) where
  map-Some :
      (rows : List Fingerprint) → Some (λ r. P (match_of r)) rows → Some P (map match_of rows)
  map-Some (r ∷ rest) (inl h) = inl h
  map-Some (r ∷ rest) (inr h) = inr (map-Some rest h)
  map-Some [] h = absurd h

-- A row that a search selects is among its matches.
pub search-Some :
    (chain : ℕ) (contract version fingerprint : String) (claim : ℕ) (insurer : String)
    (rows : List Fingerprint) (r : Fingerprint)
    → same_incident chain contract version fingerprint claim insurer r ≡ true
    → Some (λ x. x ≡ r) rows
    → Some (λ m. m ≡ match_of r) (search chain contract version fingerprint claim insurer rows)
unfolding search
search-Some chain contract version fingerprint claim insurer rows r h e =
    let p : Fingerprint → Bool = same_incident chain contract version fingerprint claim insurer in
    map-Some (λ m. m ≡ match_of r) (order (keep p rows))
      (order-Some (λ x. match_of x ≡ match_of r) (keep p rows)
        (Some-imp (λ x. x ≡ r) (λ x. match_of x ≡ match_of r) (keep p rows) (λ x k. rw k refl)
          (Some-keep (λ x. x ≡ r) p rows (λ x k. rw k h) e)))
