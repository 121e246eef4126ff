-- ===== src/Gasless/Nonces/Sign.antt =====
-- `persist_signed_transaction` gives a row the nonce that its stream reserved.
use decentralized_claims_reg.Prelude.{
  ℕ, String, some, List, ◌≡◌, sym, ap, ◌∙◌, arith, ◌≤◌, ◌<◌, ◌+◌, inl, inr, Bool-cases, ==→eq,
}
use decentralized_claims_reg.Prelude.Text.{lower, eq_iff}
use decentralized_claims_reg.Prelude.Lists.{
  patch, find, All, All-update, All-zip, AllPairs-update, AllPairs-zip,
}
use decentralized_claims_reg.Gasless.Records.{Submission, Outbox, SignedRelayTransaction, NonceRow}
use decentralized_claims_reg.Gasless.Table.{by_id, next_nonce, put_nonce}
use decentralized_claims_reg.Gasless.Relay.{record_signed}
use decentralized_claims_reg.Gasless.RelayCases.{signed_outbox}
use decentralized_claims_reg.Gasless.Ids.{DistinctIds, UniqueIds, find_unique}
use decentralized_claims_reg.Gasless.Nonces.Stream.{
  put_nonce-IsFolded, next_nonce-put, next_nonce_folded, next_nonce-put-le,
}
use decentralized_claims_reg.Gasless.Nonces.Rows.{Below, DistinctNonces, HasNonces}

-- Signing for the row `r`, with the nonce that was reserved for it.
module _ (i : ℕ) (relayer : String) (reserved : ℕ) (t : SignedRelayTransaction) (now : ℕ)
    (r : Submission) (s : Outbox) (h : HasNonces s) (own : t.nonce ≡ reserved)
    (next : next_nonce r.chain_id relayer s.nonces ≤ reserved) where
  abbrev raised : List NonceRow
  raised = put_nonce r.chain_id relayer (reserved + 1) s.nonces

  abbrev sign_row : Submission → Submission
  sign_row = patch (by_id i) (record_signed relayer t now)

  raised_self :
      (a : String) → lower a ≡ lower relayer → next_nonce r.chain_id a raised ≡ reserved + 1
  raised_self a e =
      rw (next_nonce-put r.chain_id relayer (reserved + 1) s.nonces r.chain_id a h.folded)
        (ground (arith, eq_iff (lower relayer) (lower a)))

  abbrev IsRow : Submission → Type 0
  IsRow x = Below s.nonces x × (x.submission_id ≡ i → x ≡ r)

  signed-Below : (x : Submission) → IsRow x → Below raised (sign_row x)
  unfolding record_signed
  signed-Below x (b, same) = elim (Bool-cases (by_id i x)) [
    | inl e ↦ rw e λ a n ea en.
        let is_r : x ≡ r = same (==→eq x.submission_id i e) in
        let a_relayer : relayer ≡ a = ground arith in
        let n_own : t.nonce ≡ n = ground arith in
        rw is_r (rw (raised_self a (ap lower (sym a_relayer))) (omega arith))
    | inr e ↦ rw e λ a n ea en. omega (
      arith,
      b a n ea en,
      next_nonce-put-le r.chain_id relayer (reserved + 1) s.nonces x.chain_id a h.folded
          (omega arith),
    )
  ]

  -- A row that stays as it was does not have the nonce that is handed out.
  fresh :
      (y : Submission) (b : String)
      → Below s.nonces y
      → r.chain_id ≡ y.chain_id
      → y.relayer_address ≡ some b
      → lower relayer ≡ lower b
      → y.relayer_nonce ≡ some t.nonce
      → ⊥
  fresh y b below ec eb el en =
      let lt : t.nonce < next_nonce y.chain_id b s.nonces = below b t.nonce eb en in
      let lt' : t.nonce < next_nonce r.chain_id b s.nonces = rw ec lt in
      absurd (omega (arith, next_nonce_folded r.chain_id b relayer s.nonces (sym el)))

  signed-distinct :
      (x y : Submission)
      → IsRow x
      → IsRow y
      → DistinctIds x y × DistinctNonces x y
      → DistinctNonces (sign_row x) (sign_row y)
  unfolding record_signed
  signed-distinct x y (bx, sx) (by, sy) (ids, d) = elim (Bool-cases (by_id i x)) [
    | inl e ↦ elim (Bool-cases (by_id i y)) [
      | inl e' ↦ absurd (ids (==→eq x.submission_id i e ∙ sym (==→eq y.submission_id i e')))
      | inr e' ↦
          rw (e, e')
            λ a b n ec ea eb el en em.
              let is_r : x ≡ r = sx (==→eq x.submission_id i e) in
              fresh y b by (ground arith) eb (ground arith) (ground arith)
    ]
    | inr e ↦ elim (Bool-cases (by_id i y)) [
      | inl e' ↦
          rw (e, e')
            λ a b n ec ea eb el en em.
              let is_r : y ≡ r = sy (==→eq y.submission_id i e') in
              fresh x a bx (ground arith) ea (ground arith) (ground arith)
      | inr e' ↦ rw (e, e') d
    ]
  ]

  pub signed-HasNonces :
      UniqueIds s.submissions
      → find (by_id i) s.submissions ≡ some r
      → HasNonces (signed_outbox i relayer reserved t now r s)
  signed-HasNonces u found =
      let rows : All IsRow s.submissions =
        All-zip (Below s.nonces) (λ x. x.submission_id ≡ i → x ≡ r) s.submissions h.below
          (find_unique (by_id i) i s.submissions r (λ x. ==→eq x.submission_id i) u found) in
      record {
        folded = put_nonce-IsFolded r.chain_id relayer (reserved + 1) s.nonces h.folded;
        below =
            All-update IsRow (Below raised) (by_id i) (record_signed relayer t now) s.submissions
              signed-Below rows;
        distinct =
            AllPairs-update IsRow (λ x y. DistinctIds x y × DistinctNonces x y) DistinctNonces
              (by_id i) (record_signed relayer t now) s.submissions signed-distinct rows
              (AllPairs-zip DistinctIds DistinctNonces s.submissions u h.distinct);
      }
