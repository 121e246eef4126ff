-- ===== src/Gasless/Ids.antt =====
-- Submission identifiers stay unique: no statement changes one, and an insertion brings a new one.
use decentralized_claims_reg.Prelude.{
  ℕ, Bool, true, false, none, some, List, [], ◌∷◌, ◌++◌, ◌≡◌, ◌≢◌, sym, ◌∙◌, inl, inr, arith,
  Bool-cases,
}
use decentralized_claims_reg.Prelude.Lists.{
  find, update, patch, All, All-trivial, AllPairs, All-imp, AllPairs-update, AllPairs-append_one,
  find-All, find-true, find-none,
}
use decentralized_claims_reg.Gasless.Records.{Submission}
use decentralized_claims_reg.Gasless.Table.{by_id}

abbrev pub DistinctIds : Submission → Submission → Type 0
DistinctIds r s = r.submission_id ≢ s.submission_id

abbrev pub UniqueIds : List Submission → Type 0
UniqueIds = AllPairs DistinctIds

-- A change of a row that leaves the request alone.
abbrev KeepsRequest : (Submission → Submission) → Type 0
KeepsRequest f = (r : Submission) → (f r).request ≡ r.request

patch-request :
    (p : Submission → Bool) (f : Submission → Submission) (r : Submission)
    → KeepsRequest f
    → (patch p f r).request ≡ r.request
patch-request p f r k = ground (arith, k r)

pub UniqueIds-update :
    (p : Submission → Bool) (f : Submission → Submission) (rows : List Submission)
    → KeepsRequest f
    → UniqueIds rows
    → UniqueIds (update p f rows)
UniqueIds-update p f rows k u =
    AllPairs-update (λ r. Unit) DistinctIds DistinctIds p f rows
      (λ r s _ _ d. ground (arith, patch-request p f r k, patch-request p f s k)) (All-trivial rows)
      u

pub UniqueIds-append :
    (rows : List Submission) (r : Submission)
    → find (by_id r.submission_id) rows ≡ none
    → UniqueIds rows
    → UniqueIds (rows ++ r ∷ [])
UniqueIds-append rows r free u =
    AllPairs-append_one DistinctIds rows r
      (All-imp (λ x. by_id r.submission_id x ≡ false) (λ x. DistinctIds x r) rows
        (λ x e same. ground arith) (find-none (by_id r.submission_id) rows free))
      u

-- With unique identifiers, a row found under an identifier is the only one that has it.
pub find_unique :
    (p : Submission → Bool) (i : ℕ) (rows : List Submission) (r : Submission)
    → ((x : Submission) → p x ≡ true → x.submission_id ≡ i)
    → UniqueIds rows
    → find p rows ≡ some r
    → All (λ x. x.submission_id ≡ i → x ≡ r) rows
unfolding find
find_unique p i [] r has u e = tt
find_unique p i (x ∷ rows) r has u e = elim (Bool-cases (p x)) [
  | inl t ↦
      let same : x ≡ r = ground arith in
      let own : x.submission_id ≡ i = has x t in
      (
        λ _. same,
        All-imp (DistinctIds x) (λ y. y.submission_id ≡ i → y ≡ r) rows
            (λ y d e'. absurd (d (own ∙ sym e'))) u.0,
      )
  | inr t ↦
      let below : find p rows ≡ some r = ground arith in
      (
        λ e'. absurd (
            find-All (DistinctIds x) p rows r u.0 below
              (e' ∙ sym (has r (find-true p rows r below)))),
        find_unique p i rows r has u.1 below,
      )
]
