-- ===== src/Reconcile/Agreement.antt =====
-- The reconciliation against the table itself.
use decentralized_claims_reg.Prelude.{
  ℕ, suc, Bool, true, some, List, [], ◌∷◌, ◌≡◌, ◌≢◌, refl, sym, ◌∙◌, inl, inr, arith, ◌&&◌, ◌+◌,
  ◌≤◌, ◌<◌, Bool-cases, ltb,
}
use decentralized_claims_reg.Prelude.Lists.{find, keep, take, length, All, All-imp, Some, AllPairs}
use decentralized_claims_reg.Prelude.Text.{lower, eq_iff}
use decentralized_claims_reg.Postgres.{ok}
use decentralized_claims_reg.Index.Tables.{ClaimRow, CheckpointRow, Index}
use decentralized_claims_reg.Index.Write.{is_deployment}
use decentralized_claims_reg.Index.Claims.{
  IndexedClaim, claim_from_row, claims_from_rows, of_contract, place, highest_first,
  length-highest_first,
}
use decentralized_claims_reg.Scoring.World.{ChainClaim}
use decentralized_claims_reg.Reconcile.{
  Contract, Deployment, Reconciliation, consistent, is_empty, same_public_state, read_index,
  unexpected_ids, reconcile,
}
use decentralized_claims_reg.Reconcile.Reading.{
  Distinct, whole, read_index-whole, length-claims_from_rows,
}
use decentralized_claims_reg.Reconcile.Matching.{
  MatchFrom, MatchFrom-at, MatchFrom-all, compare_claims_ends, unexpected_ids-none,
  none-unexpected_ids,
}
use decentralized_claims_reg.Reconcile.Rows.{
  Some-highest_first, highest_first-Some, All-highest_first, highest_first-All, All-place,
  Some-claims, claims-Some, All-claims, claims-All, Some-kept, kept-Some, All-kept, kept-All,
}

-- The primary key of `indexed_claims`.
abbrev pub UniqueClaims : List ClaimRow → Type 0
UniqueClaims = AllPairs λ r t. ¬ (
    (r.chain_id ≡ t.chain_id)
    × (r.contract_address ≡ t.contract_address)
    × (r.claim_id ≡ t.claim_id))

abbrev OtherId : ClaimRow → ClaimRow → Type 0
OtherId r t = r.claim_id ≢ t.claim_id

place-AllPairs :
    (r : ClaimRow) (rows : List ClaimRow)
    → All (OtherId r) rows
    → AllPairs OtherId rows
    → AllPairs OtherId (place r rows)
unfolding place
place-AllPairs r [] h u = (tt, tt)
place-AllPairs r (s ∷ rest) h u = elim (Bool-cases (ltb s.claim_id r.claim_id)) [
  | inl t ↦ rw t (h, u)
  | inr f ↦
      rw f (All-place (OtherId s) r rest (λ e. h.0 (sym e)) u.0, place-AllPairs r rest h.1 u.1)
]

highest_first-AllPairs :
    (rows : List ClaimRow) → AllPairs OtherId rows → AllPairs OtherId (highest_first rows)
unfolding highest_first
highest_first-AllPairs [] u = tt
highest_first-AllPairs (r ∷ rest) u =
    place-AllPairs r (highest_first rest) (All-highest_first (OtherId r) rest u.0)
      (highest_first-AllPairs rest u.1)

claims-Distinct : (rows : List ClaimRow) → AllPairs OtherId rows → Distinct (claims_from_rows rows)
unfolding claims_from_rows
claims-Distinct [] u = tt
claims-Distinct (r ∷ rest) u =
    (All-claims (λ c. r.claim_id ≢ c.claim_id) rest u.0, claims-Distinct rest u.1)

length-keep-le : (q : ClaimRow → Bool) (rows : List ClaimRow) → length (keep q rows) ≤ length rows
unfolding keep
length-keep-le q [] = omega arith
length-keep-le q (r ∷ rest) = ground (arith, length-keep-le q rest)

module _ (d : Deployment) (s : Index) where
  abbrev ours : ClaimRow → Bool
  ours = of_contract d.chain_id d.address

  kept-AllPairs : (rows : List ClaimRow) → UniqueClaims rows → AllPairs OtherId (keep ours rows)
  unfolding keep
  kept-AllPairs [] u = tt
  kept-AllPairs (r ∷ rest) u = elim (Bool-cases (ours r)) [
    | inr f ↦ rw f (kept-AllPairs rest u.1)
    | inl t ↦ rw t (
      All-kept ours (OtherId r) rest (
          All-imp
            (λ x. ¬ (
              (r.chain_id ≡ x.chain_id)
              × (r.contract_address ≡ x.contract_address)
              × (r.claim_id ≡ x.claim_id)))
            (λ x. ours x ≡ true → OtherId r x) rest
            (λ x apart k e. apart (
              ground (arith, t, k),
              (eq_iff r.contract_address (lower d.address)).0 (ground (arith, t))
                  ∙ sym ((eq_iff x.contract_address (lower d.address)).0 (ground (arith, k))),
              e,
            ))
            u.0),
      kept-AllPairs rest u.1,
    )
  ]

  -- What the contract says at `count` identifiers is what the rows of the deployment say, and they
  -- have no other identifiers.
  pub record Agrees (answers : ℕ → ChainClaim) (count : ℕ) : Type 0 where
    pub complete :
        (i : ℕ)
        → i < count
        → Some
            (λ r.
              (ours r ≡ true)
              × ((r.claim_id ≡ i) × (same_public_state (answers i) (claim_from_row r) ≡ true)))
            s.claims
    pub nothing_more : All (λ r. ours r ≡ true → r.claim_id < count) s.claims

  abbrev listed_claims : List IndexedClaim
  listed_claims = whole d 999 s

  module _ (answers : ℕ → ChainClaim) (count : ℕ) where
    abbrev Match : ℕ → IndexedClaim → Type 0
    Match i c = (c.claim_id ≡ i) × (same_public_state (answers i) c ≡ true)

    agree :
        MatchFrom listed_claims answers count 0
        → All (λ c. c.claim_id < count) listed_claims
        → Agrees answers count
    agree m u = record {
      complete = λ i l.
          kept-Some ours (λ r. Match i (claim_from_row r)) s.claims
            (highest_first-Some (λ r. Match i (claim_from_row r)) (keep ours s.claims)
              (claims-Some (Match i) (highest_first (keep ours s.claims))
                (MatchFrom-at listed_claims answers count 0 i m (omega arith) (omega (arith, l)))));
      nothing_more =
          kept-All ours (λ r. r.claim_id < count) s.claims
            (highest_first-All (λ r. r.claim_id < count) (keep ours s.claims)
              (claims-All (λ c. c.claim_id < count) (highest_first (keep ours s.claims)) u));
    }

    agreed-MatchFrom : Agrees answers count → MatchFrom listed_claims answers count 0
    agreed-MatchFrom a = MatchFrom-all listed_claims answers count 0 λ i l u.
        Some-claims (Match i) (highest_first (keep ours s.claims)) (
          Some-highest_first (λ r. Match i (claim_from_row r)) (keep ours s.claims)
            (Some-kept ours (λ r. Match i (claim_from_row r)) s.claims
              (a.complete i (omega (arith, u)))))

    agreed-All : Agrees answers count → All (λ c. c.claim_id < count) listed_claims
    agreed-All a =
        All-claims (λ c. c.claim_id < count) (highest_first (keep ours s.claims))
          (All-highest_first (λ r. r.claim_id < count) (keep ours s.claims)
            (All-kept ours (λ r. r.claim_id < count) s.claims a.nothing_more))

  -- Where the deployment has a checkpoint, its rows have different keys, and the contract answers at
  -- the checkpoint's block, the reconciliation returns; it is consistent if and only if the rows of
  -- the deployment are the contract's claims.
  pub reconcile-consistent :
      (contract : Contract) (checkpoint : CheckpointRow) (count : ℕ) (answers : ℕ → ChainClaim)
      → UniqueClaims s.claims
      → find (is_deployment d.chain_id d.address) s.checkpoints ≡ some checkpoint
      → contract.claim_count checkpoint.last_processed_block ≡ ok count
      → ((i : ℕ)
          → i < count
          → contract.get_claim checkpoint.last_processed_block i ≡ ok (answers i))
      → (r : Reconciliation) × (reconcile d contract s ≡ ok r)
        × (consistent r ≡ true → Agrees answers count)
        × (Agrees answers count → consistent r ≡ true)
  unfolding reconcile take
  reconcile-consistent contract c count answers unique at counted answered =
      let apart : Distinct listed_claims =
        claims-Distinct (highest_first (keep ours s.claims))
          (highest_first-AllPairs (keep ours s.claims) (kept-AllPairs s.claims unique)) in
      let room : length listed_claims < suc (length s.claims) + 0 = omega (
        arith,
        length-claims_from_rows (highest_first (keep ours s.claims)),
        length-highest_first (keep ours s.claims),
        length-keep-le ours s.claims,
      ) in
      let done : read_index d 1000 s (suc (length s.claims)) 1 [] 0
          ≡ ok (listed_claims, length listed_claims) =
        read_index-whole d 999 s apart (suc (length s.claims)) 0 0 room (omega arith) (inl refl) in
      let (missing, mismatched, e, sound, complete) =
        compare_claims_ends listed_claims answers apart contract c.last_processed_block count 0
          (λ j l u. answered j (omega (arith, u))) in
      (
        record {
          indexed_through_block = c.last_processed_block;
          chain_claims = count;
          indexed_claims = length listed_claims;
          missing_claim_ids = missing;
          unexpected_claim_ids = unexpected_ids count listed_claims;
          mismatched_claim_ids = mismatched;
        },
        simp (at, counted, done, e) refl,
        (λ h.
            agree answers count (sound (ground (arith, h)))
              (unexpected_ids-none count listed_claims (ground (arith, h)))),
        λ a.
            let both : (is_empty missing && is_empty mismatched) ≡ true =
              complete (agreed-MatchFrom answers count a) in
            let rest : is_empty (unexpected_ids count listed_claims) ≡ true =
              none-unexpected_ids count listed_claims (agreed-All answers count a) in
            ground (arith, both, rest),
      )
