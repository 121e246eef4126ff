-- ===== src/Reconcile/Reading.antt =====
-- The loop that reads the index: it ends, and gives every claim of the deployment.
use decentralized_claims_reg.Prelude.{
  ℕ, zero, suc, List, [], ◌∷◌, ◌++◌, ◌≡◌, ◌≢◌, refl, sym, ap, ◌∙◌, subst, ◌⊎◌, inl, inr, arith, ltb,
  ◌==◌, ◌||◌, ◌+◌, ◌*◌, ◌≤◌, ◌<◌, Bool-cases, ==→eq,
}
use decentralized_claims_reg.Prelude.Lists.{
  keep, take, length, All, AllPairs, append-nil, append_assoc,
}
use decentralized_claims_reg.Postgres.{ok}
use decentralized_claims_reg.Index.Tables.{ClaimRow, Index}
use decentralized_claims_reg.Index.Claims.{
  IndexedClaim, claim_from_row, claims_from_rows, offset, list_claims, listed, highest_first,
  of_contract, page_ok, take-offset, length-highest_first,
}
use decentralized_claims_reg.Reconcile.{Deployment, put_claim, put_all, read_index}

abbrev pub Distinct : List IndexedClaim → Type 0
Distinct = AllPairs λ c d. c.claim_id ≢ d.claim_id

All-middle :
    (P : IndexedClaim → Type 0) (xs ys : List IndexedClaim) (c : IndexedClaim)
    → All P (xs ++ c ∷ ys)
    → P c
All-middle P [] ys c h = h.0
All-middle P (x ∷ xs) ys c h = All-middle P xs ys c h.1

Distinct-before :
    (seen cs : List IndexedClaim) (c : IndexedClaim)
    → Distinct (seen ++ c ∷ cs)
    → All (λ d. d.claim_id ≢ c.claim_id) seen
Distinct-before [] cs c h = tt
Distinct-before (d ∷ seen) cs c h =
    (All-middle (λ e. d.claim_id ≢ e.claim_id) seen cs c h.0, Distinct-before seen cs c h.1)

put_new :
    (c : IndexedClaim) (seen : List IndexedClaim)
    → All (λ d. d.claim_id ≢ c.claim_id) seen
    → put_claim c seen ≡ seen ++ c ∷ []
unfolding put_claim
put_new c [] h = refl
put_new c (d ∷ seen) h = elim (Bool-cases (d.claim_id == c.claim_id)) [
  | inl t ↦ absurd (h.0 (==→eq d.claim_id c.claim_id t))
  | inr f ↦ rw f (ap (◌∷◌ d) (put_new c seen h.1))
]

put_all_new : (cs seen : List IndexedClaim) → Distinct (seen ++ cs) → put_all cs seen ≡ seen ++ cs
unfolding put_all
put_all_new [] seen h = sym (append-nil seen)
put_all_new (c ∷ cs) seen h =
    ap (put_all cs) (put_new c seen (Distinct-before seen cs c h))
    ∙ put_all_new cs (seen ++ c ∷ []) (subst Distinct (sym (append_assoc seen (c ∷ []) cs)) h)
    ∙ append_assoc seen (c ∷ []) cs

All-take :
    (P : IndexedClaim → Type 0) (n : ℕ) (xs : List IndexedClaim) → All P xs → All P (take n xs)
unfolding take
All-take P zero xs h = tt
All-take P (suc n) [] h = tt
All-take P (suc n) (x ∷ xs) h = (h.0, All-take P n xs h.1)

take-Distinct : (n : ℕ) (xs : List IndexedClaim) → Distinct xs → Distinct (take n xs)
unfolding take
take-Distinct zero xs h = tt
take-Distinct (suc n) [] h = tt
take-Distinct (suc n) (x ∷ xs) h =
    (All-take (λ d. x.claim_id ≢ d.claim_id) n xs h.0, take-Distinct n xs h.1)

take_full : (n : ℕ) (xs : List IndexedClaim) → length xs ≤ length (take n xs) → take n xs ≡ xs
unfolding take
take_full zero [] h = refl
take_full zero (x ∷ xs) h = absurd (omega (arith, h))
take_full (suc n) [] h = refl
take_full (suc n) (x ∷ xs) h = ap (◌∷◌ x) (take_full n xs (omega (arith, h)))

-- An empty page: everything was read before it. Another one: something was not.
last_page : (m k : ℕ) (xs : List IndexedClaim) → take (suc k) (offset m xs) ≡ [] → take m xs ≡ xs
unfolding take offset
last_page zero k [] e = refl
last_page zero k (x ∷ xs) e = absurd (cc)
last_page (suc m) k [] e = refl
last_page (suc m) k (x ∷ xs) e = ap (◌∷◌ x) (last_page m k xs e)

more_pages :
    (m k : ℕ) (xs cs : List IndexedClaim) (c : IndexedClaim)
    → take (suc k) (offset m xs) ≡ c ∷ cs
    → m < length xs
unfolding take offset
more_pages zero k [] cs c e = absurd (cc)
more_pages zero k (x ∷ xs) cs c e = omega arith
more_pages (suc m) k [] cs c e = absurd (cc)
more_pages (suc m) k (x ∷ xs) cs c e = omega (arith, more_pages m k xs cs c e)

List-cases :
    (xs : List IndexedClaim)
    → (xs ≡ []) ⊎ ((c : IndexedClaim) × (cs : List IndexedClaim) × (xs ≡ c ∷ cs))
List-cases [] = inl refl
List-cases (c ∷ cs) = inr (c, cs, refl)

claims-take :
    (n : ℕ) (rows : List ClaimRow) → claims_from_rows (take n rows) ≡ take n (claims_from_rows rows)
unfolding take claims_from_rows
claims-take zero rows = refl
claims-take (suc n) [] = refl
claims-take (suc n) (r ∷ rows) = ap (◌∷◌ (claim_from_row r)) (claims-take n rows)

claims-offset :
    (n : ℕ) (rows : List ClaimRow)
    → claims_from_rows (offset n rows) ≡ offset n (claims_from_rows rows)
unfolding offset claims_from_rows
claims-offset zero rows = refl
claims-offset (suc n) [] = refl
claims-offset (suc n) (r ∷ rows) = claims-offset n rows

pub length-claims_from_rows : (rows : List ClaimRow) → length (claims_from_rows rows) ≡ length rows
unfolding claims_from_rows
length-claims_from_rows [] = refl
length-claims_from_rows (r ∷ rows) = ap suc (length-claims_from_rows rows)

module _ (d : Deployment) (k : ℕ) (s : Index) where
  -- The claims of the deployment.
  abbrev pub whole : List IndexedClaim
  whole = claims_from_rows (listed d.chain_id d.address (suc k) s)

  abbrev page : ℕ → List IndexedClaim
  page n = take (suc k) (offset (n * suc k) whole)

  list_claims-page :
      (n : ℕ) → list_claims d.chain_id d.address (suc n) (suc k) s ≡ ok (page n, length whole)
  list_claims-page n =
      let kept : List ClaimRow = keep (of_contract d.chain_id d.address) s.claims in
      page_ok d.chain_id d.address (suc k) s n
      ∙ ap (λ xs. ok (xs, length kept))
          (claims-take (suc k) (offset (n * suc k) (highest_first kept))
            ∙ ap (take (suc k)) (claims-offset (n * suc k) (highest_first kept)))
      ∙ ap (λ t. ok (page n, t))
          (sym (length-highest_first kept) ∙ sym (length-claims_from_rows (highest_first kept)))

  module _ (apart : Distinct whole) where
    seen-put_all : (n : ℕ) → put_all (page n) (take (n * suc k) whole) ≡ take (suc n * suc k) whole
    seen-put_all n =
        let joined : take (n * suc k) whole ++ page n ≡ take (suc n * suc k) whole =
          take-offset (n * suc k) (suc k) (suc n * suc k) whole (grind arith) in
        put_all_new (page n) (take (n * suc k) whole)
          (subst Distinct (sym joined) (take-Distinct (suc n * suc k) whole apart))
        ∙ joined

    -- After `n` pages, with a round for each claim that may be left and one more.
    pub read_index-whole :
        (fuel n count : ℕ)
        → length whole < fuel + n
        → n ≤ length whole
        → (n ≡ 0) ⊎ (count ≡ length whole)
        → read_index d (suc k) s fuel (suc n) (take (n * suc k) whole) count
          ≡ ok (whole, length whole)
    unfolding read_index
    read_index-whole zero n count h below known = absurd (omega (arith, h, below))
    read_index-whole (suc fuel) n count h below known =
        elim (Bool-cases (suc n == 1 || ltb (length (take (n * suc k) whole)) count)) [
          | inr stop ↦
              let total : count ≡ length whole = elim known [
                | inl first ↦ absurd (ground (arith, stop, first))
                | inr e ↦ e
              ] in
              let full : length whole ≤ length (take (n * suc k) whole) =
                ground (arith, stop, total) in
              rw stop (
                ap (λ xs. ok (xs, count)) (take_full (n * suc k) whole full)
                ∙ ap (λ t. ok (whole, t)) total)
          | inl go ↦
              rw (go, list_claims-page n)
                (elim (List-cases (page n)) [
                  | inl last ↦
                      simp last
                        (ap (λ xs. ok (xs, length whole)) (last_page (n * suc k) k whole last))
                  | inr (c, cs, e) ↦
                      let more : n * suc k < length whole = more_pages (n * suc k) k whole cs c e in
                      let seen : put_all (c ∷ cs) (take (n * suc k) whole)
                          ≡ take (suc n * suc k) whole =
                        ap (λ xs. put_all xs (take (n * suc k) whole)) (sym e) ∙ seen-put_all n in
                      let next : suc n + 1 ≡ suc (suc n) = omega arith in
                      simp (e, seen, next)
                        (read_index-whole fuel (suc n) (length whole) (omega (arith, h))
                          (grind (arith, more)) (inr refl))
                ])
        ]
