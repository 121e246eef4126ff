-- ===== src/Index/Claims.antt =====
-- claim_index_repository.py: `list_claims`, whose pages are numbered from 1, and `get_claim`.
use decentralized_claims_reg.Prelude.{
  ℕ, zero, suc, String, Bool, Option, none, some, false, List, [], ◌∷◌, ◌++◌, ◌≡◌, refl, sym, ap,
  ◌∙◌, arith, ltb, ◌==◌, ◌&&◌, not, ◌≤◌, inl, inr, Bool-cases, ◌+◌, ◌-◌, ◌*◌, if◌then◌else◌,
}
use decentralized_claims_reg.Prelude.Lists.{keep, find, take, length}
use decentralized_claims_reg.Prelude.Text.{str_eq, lower}
use decentralized_claims_reg.Postgres.{Result, ok, err}
use decentralized_claims_reg.Index.Tables.{ClaimRow, Index}

pub record IndexedClaim : Type 0 where
  pub claim_id : ℕ
  pub claimant : String
  pub claim_hash : String
  pub data_pointer : String
  pub status : ℕ
  pub fraud_score : ℕ
  pub submitted_at : ℕ
  pub updated_at : ℕ

abbrev pub claim_from_row : ClaimRow → IndexedClaim
claim_from_row r = record {
  claim_id = r.claim_id;
  claimant = r.claimant;
  claim_hash = r.claim_hash;
  data_pointer = r.data_pointer;
  status = r.status;
  fraud_score = r.fraud_score;
  submitted_at = r.submitted_at;
  updated_at = r.updated_at;
}

unfoldable pub claims_from_rows : List ClaimRow → List IndexedClaim
claims_from_rows [] = []
claims_from_rows (r ∷ rows) = claim_from_row r ∷ claims_from_rows rows

abbrev pub of_contract : ℕ → String → ClaimRow → Bool
of_contract chain contract r = r.chain_id == chain && str_eq r.contract_address (lower contract)

-- `ORDER BY claim_id DESC`
unfoldable pub place : ClaimRow → List ClaimRow → List ClaimRow
place r [] = r ∷ []
place r (s ∷ rest) =
    let further = place r rest in if ltb s.claim_id r.claim_id then r ∷ s ∷ rest else s ∷ further

unfoldable pub highest_first : List ClaimRow → List ClaimRow
unfolding place
highest_first [] = []
highest_first (r ∷ rest) = place r (highest_first rest)

-- `OFFSET n`
unfoldable pub offset {ℓ} : {A : Type ℓ} → ℕ → List A → List A
offset zero xs = xs
offset (suc n) [] = []
offset (suc n) (x ∷ xs) = offset n xs

-- A page and the number of claims; an offset below 0 is an error of the database.
unfoldable pub list_claims : ℕ → String → ℕ → ℕ → Index → Result String (List IndexedClaim × ℕ)
unfolding claims_from_rows highest_first offset
list_claims chain contract page page_size s =
    let rows = keep (of_contract chain contract) s.claims in
    if page == 0 && not (page_size == 0)
    then err "PostgreSQL claim storage is unavailable"
    else ok (
      claims_from_rows (take page_size (offset ((page - 1) * page_size) (highest_first rows))),
      length rows,
    )

abbrev pub has_key : ℕ → String → ℕ → ClaimRow → Bool
has_key chain contract claim r =
    r.chain_id == chain && str_eq r.contract_address (lower contract) && r.claim_id == claim

abbrev pub read_row : Option ClaimRow → Option IndexedClaim
read_row none = none
read_row (some r) = some (claim_from_row r)

unfoldable pub get_claim : ℕ → String → ℕ → Index → Option IndexedClaim
get_claim chain contract claim s = read_row (find (has_key chain contract claim) s.claims)

-- The first `n` pages, put together.
abbrev pub items : Result String (List IndexedClaim × ℕ) → List IndexedClaim
items (ok (claims, total)) = claims
items (err m) = []

abbrev pub total : Result String (List IndexedClaim × ℕ) → ℕ
total (ok (claims, n)) = n
total (err m) = 0

pub read_pages : ℕ → String → ℕ → ℕ → Index → List IndexedClaim
read_pages chain contract page_size zero s = []
read_pages chain contract page_size (suc n) s =
    read_pages chain contract page_size n s
    ++ items (list_claims chain contract (suc n) page_size s)

pub take_empty {ℓ} : {A : Type ℓ} → (n : ℕ) → let none_ : List A = [] in take n none_ ≡ none_
unfolding take
take_empty zero = refl
take_empty (suc n) = refl

pub take-offset {ℓ} :
    {A : Type ℓ}
    → (n k m : ℕ) (xs : List A) → m ≡ n + k
    → take n xs ++ take k (offset n xs) ≡ take m xs
unfolding take offset
take-offset zero k m xs e = let same : k ≡ m = omega (arith, e) in ap (λ j. take j xs) same
take-offset (suc n) k m [] e = take_empty k ∙ sym (take_empty m)
take-offset (suc n) k zero (x ∷ xs) e = absurd (omega (arith, e))
take-offset (suc n) k (suc m) (x ∷ xs) e = ap (◌∷◌ x) (take-offset n k m xs (omega (arith, e)))

pub take_all {ℓ} : {A : Type ℓ} → (n : ℕ) (xs : List A) → length xs ≤ n → take n xs ≡ xs
unfolding take
take_all zero [] h = refl
take_all zero (x ∷ xs) h = absurd (omega (arith, h))
take_all (suc n) [] h = refl
take_all (suc n) (x ∷ xs) h = ap (◌∷◌ x) (take_all n xs (omega (arith, h)))

claims-append :
    (rows more : List ClaimRow)
    → claims_from_rows (rows ++ more) ≡ claims_from_rows rows ++ claims_from_rows more
unfolding claims_from_rows
claims-append [] more = refl
claims-append (r ∷ rows) more = ap (◌∷◌ (claim_from_row r)) (claims-append rows more)

length-place : (r : ClaimRow) (rows : List ClaimRow) → length (place r rows) ≡ suc (length rows)
unfolding place
length-place r [] = refl
length-place r (s ∷ rest) = elim (Bool-cases (ltb s.claim_id r.claim_id)) [
  | inl t ↦ rw t refl
  | inr f ↦ rw f (ap suc (length-place r rest))
]

pub length-highest_first : (rows : List ClaimRow) → length (highest_first rows) ≡ length rows
unfolding highest_first
length-highest_first [] = refl
length-highest_first (r ∷ rest) =
    length-place r (highest_first rest) ∙ ap suc (length-highest_first rest)

module _ (chain : ℕ) (contract : String) (size : ℕ) (s : Index) where
  abbrev pub listed : List ClaimRow
  listed = highest_first (keep (of_contract chain contract) s.claims)

  pub page_ok :
      (n : ℕ)
      → list_claims chain contract (suc n) size s
        ≡ ok (
          claims_from_rows (take size (offset (n * size) listed)),
          length (keep (of_contract chain contract) s.claims),
        )
  unfolding list_claims
  page_ok n =
      let numbered : (suc n == 0) ≡ false = ground arith in
      let before : suc n - 1 ≡ n = omega arith in simp (numbered, before) refl

  read_taken :
      (n : ℕ) → read_pages chain contract size n s ≡ claims_from_rows (take (n * size) listed)
  unfolding read_pages take claims_from_rows
  read_taken zero =
      let none_ : 0 ≡ 0 * size = omega arith in ap (λ k. claims_from_rows (take k listed)) none_
  read_taken (suc n) =
      ap (λ out. read_pages chain contract size n s ++ items out) (page_ok n)
      ∙ ap (λ x. x ++ claims_from_rows (take size (offset (n * size) listed))) (read_taken n)
      ∙ sym (claims-append (take (n * size) listed) (take size (offset (n * size) listed)))
      ∙ ap claims_from_rows (take-offset (n * size) size (suc n * size) listed (ground arith))

  -- Once the pages that are read have room for the total that the first page gives, they are the
  -- claims of the deployment, by descending identifier, each as often as it is in the table.
  pub read_pages-list_claims :
      (n : ℕ)
      → total (list_claims chain contract 1 size s) ≤ n * size
      → read_pages chain contract size n s ≡ claims_from_rows listed
  read_pages-list_claims n h =
      read_taken n
      ∙ ap claims_from_rows (
          take_all (n * size) listed (
            omega (
              arith,
              h,
              ap total (page_ok 0),
              length-highest_first (keep (of_contract chain contract) s.claims),
            )))
