-- ===== src/Gasless/Nonces/Rows.antt =====
-- What the rows of the submissions owe to the nonce streams, and the updates that leave it alone.
use decentralized_claims_reg.Prelude.{
  ℕ, String, Bool, some, List, ◌≡◌, refl, sym, ◌∙◌, subst, arith, ◌<◌, inl, inr, Bool-cases,
}
use decentralized_claims_reg.Prelude.Text.{lower}
use decentralized_claims_reg.Prelude.Lists.{
  update, patch, All, All-trivial, AllPairs, All-update, AllPairs-update,
}
use decentralized_claims_reg.Gasless.Records.{Submission, Outbox, NonceRow}
use decentralized_claims_reg.Gasless.Table.{next_nonce}
use decentralized_claims_reg.Gasless.Nonces.Stream.{IsFolded}

-- The nonce of a row has been passed by its stream.
abbrev pub Below : List NonceRow → Submission → Type 0
Below ns r =
    (a : String) (n : ℕ)
    → r.relayer_address ≡ some a
    → r.relayer_nonce ≡ some n
    → n < next_nonce r.chain_id a ns

-- Two rows of one relayer on one chain have different nonces.
abbrev pub DistinctNonces : Submission → Submission → Type 0
DistinctNonces r s =
    (a b : String) (n : ℕ)
    → r.chain_id ≡ s.chain_id
    → r.relayer_address ≡ some a
    → s.relayer_address ≡ some b
    → lower a ≡ lower b
    → r.relayer_nonce ≡ some n
    → s.relayer_nonce ≡ some n
    → ⊥

pub record HasNonces (s : Outbox) : Type 0 where
  pub folded : All IsFolded s.nonces
  pub below : All (Below s.nonces) s.submissions
  pub distinct : AllPairs DistinctNonces s.submissions

-- A change of a row that leaves alone what the nonces depend on.
abbrev pub KeepsKey : (Submission → Submission) → Type 0
KeepsKey f =
    (r : Submission)
    → ((f r).request ≡ r.request)
      × ((f r).relayer_address ≡ r.relayer_address)
      × ((f r).relayer_nonce ≡ r.relayer_nonce)

patch-KeepsKey :
    (p : Submission → Bool) (f : Submission → Submission) → KeepsKey f → KeepsKey (patch p f)
patch-KeepsKey p f k r = elim (Bool-cases (p r)) [
  | inl t ↦ rw t (k r)
  | inr t ↦ rw t (refl, refl, refl)
]

Below-same :
    (ns : List NonceRow) (r r' : Submission)
    → (r'.request ≡ r.request)
      × (r'.relayer_address ≡ r.relayer_address)
      × (r'.relayer_nonce ≡ r.relayer_nonce)
    → Below ns r
    → Below ns r'
Below-same ns r r' k b a n ea en =
    subst (λ q. n < next_nonce q.chain_id a ns) (sym k.0) (b a n (sym k.1 ∙ ea) (sym k.2 ∙ en))

module _ (p : Submission → Bool) (f : Submission → Submission) (k : KeepsKey f) where
  pub rows-Below :
      (ns : List NonceRow) (rows : List Submission)
      → All (Below ns) rows
      → All (Below ns) (update p f rows)
  rows-Below ns rows h =
      All-update (Below ns) (Below ns) p f rows
        (λ r b. Below-same ns r (patch p f r) (patch-KeepsKey p f k r) b) h

  pub rows-distinct :
      (rows : List Submission)
      → AllPairs DistinctNonces rows
      → AllPairs DistinctNonces (update p f rows)
  rows-distinct rows h =
      AllPairs-update (λ _. Unit) DistinctNonces DistinctNonces p f rows
        (λ x y _ _ d a b n ec ea eb el en em.
          let kx = patch-KeepsKey p f k x in
          let ky = patch-KeepsKey p f k y in
          d a b n (ground arith) (sym kx.1 ∙ ea) (sym ky.1 ∙ eb) el (sym kx.2 ∙ en) (sym ky.2 ∙ em))
        (All-trivial rows) h
