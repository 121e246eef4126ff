-- ===== src/Gasless/Nonces/Stream.antt =====
-- The rows of `gasless_relayer_nonces`: one stream for a chain and a relayer's folded address.
use decentralized_claims_reg.Prelude.{
  ℕ, String, List, [], ◌∷◌, ◌≡◌, ap, arith, ◌≤◌, inl, inr, Bool-cases, ◌==◌, ◌&&◌, if◌then◌else◌,
}
use decentralized_claims_reg.Prelude.Text.{lower, lower-lower, str_eq, eq_iff}
use decentralized_claims_reg.Prelude.Lists.{find, All}
use decentralized_claims_reg.Gasless.Records.{NonceRow}
use decentralized_claims_reg.Gasless.Table.{or_zero, next_nonce, put_nonce}

-- The stored address is in lower case.
abbrev pub IsFolded : NonceRow → Type 0
IsFolded n = lower n.relayer_address ≡ n.relayer_address

module _ (c : ℕ) (relayer : String) (n : ℕ) where
  pub put_nonce-IsFolded :
      (ns : List NonceRow) → All IsFolded ns → All IsFolded (put_nonce c relayer n ns)
  unfolding put_nonce
  put_nonce-IsFolded [] h = (lower-lower relayer, tt)
  put_nonce-IsFolded (m ∷ ms) h =
      elim (Bool-cases (m.chain_id == c && str_eq m.relayer_address (lower relayer))) [
        | inl t ↦ rw t h
        | inr t ↦ rw t (h.0, put_nonce-IsFolded ms h.1)
      ]

  -- A stream after an update of a stream: the same one, or another.
  pub next_nonce-put :
      (ns : List NonceRow) (d : ℕ) (a : String)
      → All IsFolded ns
      → next_nonce d a (put_nonce c relayer n ns)
        ≡ (if c == d && str_eq (lower relayer) (lower a) then n else next_nonce d a ns)
  unfolding put_nonce next_nonce find
  next_nonce-put [] d a h = ground (arith, lower-lower relayer)
  next_nonce-put (m ∷ ms) d a h = ground (
    arith,
    lower-lower relayer,
    h.0,
    eq_iff m.relayer_address (lower relayer),
    eq_iff (lower m.relayer_address) (lower a),
    eq_iff (lower relayer) (lower a),
    next_nonce-put ms d a h.1,
  )

-- The stream of an address depends on its folded form alone.
pub next_nonce_folded :
    (d : ℕ) (a b : String) (ns : List NonceRow)
    → lower a ≡ lower b
    → next_nonce d a ns ≡ next_nonce d b ns
unfolding next_nonce
next_nonce_folded d a b ns e =
    ap (λ x. or_zero (find (λ n. n.chain_id == d && str_eq (lower n.relayer_address) x) ns)) e

-- Raising one stream lowers none.
pub next_nonce-put-le :
    (c : ℕ) (relayer : String) (n : ℕ) (ns : List NonceRow) (d : ℕ) (a : String)
    → All IsFolded ns
    → next_nonce c relayer ns ≤ n
    → next_nonce d a ns ≤ next_nonce d a (put_nonce c relayer n ns)
next_nonce-put-le c relayer n ns d a h le =
    rw (next_nonce-put c relayer n ns d a h)
      (elim (Bool-cases (c == d && str_eq (lower relayer) (lower a))) [
        | inl t ↦
            let same : lower a ≡ lower relayer = ground (arith, eq_iff (lower relayer) (lower a)) in
            let chain : d ≡ c = ground arith in
            rw t (rw chain (rw (next_nonce_folded c a relayer ns same) le))
        | inr t ↦ rw t (omega arith)
      ])
