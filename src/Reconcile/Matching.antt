-- ===== src/Reconcile/Matching.antt =====
-- What the comparison of the claims that were read with those of the contract finds.
use decentralized_claims_reg.Prelude.{
  ℕ, zero, suc, true, false, none, some, List, [], ◌∷◌, ◌≡◌, ◌≢◌, refl, sym, ◌∙◌, subst, inl, inr,
  arith, ltb, ◌==◌, ◌&&◌, ◌+◌, ◌≤◌, ◌<◌, Bool-cases, Option-cases, ltb→lt, ==→eq,
}
use decentralized_claims_reg.Prelude.Lists.{
  find, All, Some, AllPairs-imp, find-none, find-true, find-Some, find_only,
}
use decentralized_claims_reg.Postgres.{ok}
use decentralized_claims_reg.Index.Claims.{IndexedClaim}
use decentralized_claims_reg.Scoring.World.{ChainClaim}
use decentralized_claims_reg.Reconcile.{
  Contract, has_id, is_empty, same_public_state, compare_claims, place_id, unexpected_ids,
}
use decentralized_claims_reg.Reconcile.Reading.{Distinct}

-- An element that has `P` has what all elements have.
Some-All :
    (P Q : IndexedClaim → Type 0) (xs : List IndexedClaim)
    → Some P xs
    → All Q xs
    → (x : IndexedClaim) × P x × Q x
Some-All P Q (x ∷ xs) (inl p) h = (x, p, h.0)
Some-All P Q (x ∷ xs) (inr s) h = Some-All P Q xs s h.1
Some-All P Q [] s h = absurd s

module _ (seen : List IndexedClaim) (answers : ℕ → ChainClaim) where
  -- The claim was read as the contract has it.
  abbrev pub Matches : ℕ → Type 0
  Matches i = Some (λ c. (c.claim_id ≡ i) × (same_public_state (answers i) c ≡ true)) seen

  abbrev pub MatchFrom : ℕ → ℕ → Type 0
  MatchFrom zero i = Unit
  MatchFrom (suc n) i = Matches i × MatchFrom n (suc i)

  absent : (i : ℕ) → find (has_id i) seen ≡ none → ¬ Matches i
  absent i e m =
      let (c, (same, public), other) =
        Some-All (λ c. (c.claim_id ≡ i) × (same_public_state (answers i) c ≡ true))
          (λ c. has_id i c ≡ false) seen m (find-none (has_id i) seen e) in
      absurd (ground (arith, same, other))

  module _ (apart : Distinct seen) where
    -- The claim that is found decides.
    decides :
        (i : ℕ) (c : IndexedClaim)
        → find (has_id i) seen ≡ some c
        → Matches i
        → same_public_state (answers i) c ≡ true
    decides i c e m =
        let only : All (λ x. has_id i x ≡ true → x ≡ c) seen =
          find_only (has_id i) seen c
            (AllPairs-imp (λ x y. x.claim_id ≢ y.claim_id)
              (λ x y. has_id i x ≡ true → has_id i y ≡ true → ⊥) seen
              (λ x y d h k. d (==→eq x.claim_id i h ∙ sym (==→eq y.claim_id i k))) apart)
            e in
        let (x, (same, public), is_c) =
          Some-All (λ x. (x.claim_id ≡ i) × (same_public_state (answers i) x ≡ true))
            (λ x. has_id i x ≡ true → x ≡ c) seen m only in
        subst (λ y. same_public_state (answers i) y ≡ true) (is_c (ground arith)) public

    module _ (contract : Contract) (block : ℕ) where
      -- The identifiers that are found are none exactly when every claim matches.
      abbrev pub Compared : ℕ → ℕ → Type 0
      Compared n i =
          (missing : List ℕ) × (mismatched : List ℕ) × (compare_claims contract block seen n i
            ≡ ok (missing, mismatched))
          × ((is_empty missing && is_empty mismatched) ≡ true → MatchFrom n i)
          × (MatchFrom n i → (is_empty missing && is_empty mismatched) ≡ true)

      pub compare_claims_ends :
          (n i : ℕ)
          → ((j : ℕ) → i ≤ j → j < i + n → contract.get_claim block j ≡ ok (answers j))
          → Compared n i
      unfolding compare_claims
      compare_claims_ends zero i h = ([], [], refl, (λ _. tt), λ _. refl)
      compare_claims_ends (suc n) i h =
          let (missing, mismatched, e, sound, complete) =
            compare_claims_ends n (suc i) (λ j l u. h j (omega (arith, l)) (omega (arith, u))) in
          let answer : contract.get_claim block i ≡ ok (answers i) =
            h i (omega arith) (omega arith) in
          elim (Option-cases (find (has_id i) seen)) [
            | inl lost ↦ (
              i ∷ missing,
              mismatched,
              simp (lost, e) refl,
              (λ f. absurd (cc f)),
              λ m. absurd (absent i lost m.0),
            )
            | inr (c, found) ↦ elim (Bool-cases (same_public_state (answers i) c)) [
              | inl same ↦ (
                missing,
                mismatched,
                simp (found, answer, e, same) refl,
                (λ f. (
                  find-Some (λ x. (x.claim_id ≡ i) × (same_public_state (answers i) x ≡ true))
                      (has_id i) seen c found
                      (==→eq c.claim_id i (find-true (has_id i) seen c found), same),
                  sound f,
                )),
                λ m. complete m.1,
              )
              | inr differs ↦ (
                missing,
                i ∷ mismatched,
                simp (found, answer, e, differs) refl,
                (λ f. absurd (ground (arith, f))),
                λ m. absurd (ground (arith, differs, decides i c found m.0)),
              )
            ]
          ]

pub MatchFrom-at :
    (seen : List IndexedClaim) (answers : ℕ → ChainClaim) (n i j : ℕ)
    → MatchFrom seen answers n i
    → i ≤ j
    → j < i + n
    → Matches seen answers j
MatchFrom-at seen answers zero i j m l u = absurd (omega (arith, l, u))
MatchFrom-at seen answers (suc n) i j m l u = elim (Bool-cases (i == j)) [
  | inl t ↦ subst (Matches seen answers) (==→eq i j t) m.0
  | inr f ↦ MatchFrom-at seen answers n (suc i) j m.1 (ground (arith, f, l)) (omega (arith, u))
]

pub MatchFrom-all :
    (seen : List IndexedClaim) (answers : ℕ → ChainClaim) (n i : ℕ)
    → ((j : ℕ) → i ≤ j → j < i + n → Matches seen answers j)
    → MatchFrom seen answers n i
MatchFrom-all seen answers zero i h = tt
MatchFrom-all seen answers (suc n) i h = (
  h i (omega arith) (omega arith),
  MatchFrom-all seen answers n (suc i) (λ j l u. h j (omega (arith, l)) (omega (arith, u))),
)

place_id_some : (i : ℕ) (ids : List ℕ) → is_empty (place_id i ids) ≡ false
unfolding place_id
place_id_some i [] = refl
place_id_some i (j ∷ ids) = elim (Bool-cases (ltb j i)) [ inl t ↦ rw t refl | inr f ↦ rw f refl ]

-- No identifier is unexpected exactly when all are below the count.
pub unexpected_ids-none :
    (count : ℕ) (seen : List IndexedClaim)
    → is_empty (unexpected_ids count seen) ≡ true
    → All (λ c. c.claim_id < count) seen
unfolding unexpected_ids
unexpected_ids-none count [] h = tt
unexpected_ids-none count (c ∷ seen) h = elim (Bool-cases (ltb c.claim_id count)) [
  | inl t ↦ (ltb→lt c.claim_id count t, unexpected_ids-none count seen (rw t at h))
  | inr f ↦ absurd (ground (arith, place_id_some c.claim_id (unexpected_ids count seen), h, f))
]

pub none-unexpected_ids :
    (count : ℕ) (seen : List IndexedClaim)
    → All (λ c. c.claim_id < count) seen
    → is_empty (unexpected_ids count seen) ≡ true
unfolding unexpected_ids
none-unexpected_ids count [] h = refl
none-unexpected_ids count (c ∷ seen) h = elim (Bool-cases (ltb c.claim_id count)) [
  | inl t ↦ rw t (none-unexpected_ids count seen h.1)
  | inr f ↦ absurd (ground (arith, f, h.0))
]
