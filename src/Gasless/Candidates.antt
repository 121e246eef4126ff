-- ===== src/Gasless/Candidates.antt =====
-- The batch that the relayer is given.
use mathlib.Core.List.{Perm}
use mathlib.Core.List.Perm
use decentralized_claims_reg.Prelude.{
  ℕ, zero, suc, Bool, true, false, List, [], ◌∷◌, ◌++◌, ◌≡◌, refl, sym, ap, subst, ◌⊎◌, inl, inr,
  arith, ◌≤◌, ltb, leb, ◌==◌, ◌&&◌, ◌||◌, Bool-cases, if◌then◌else◌,
}
use decentralized_claims_reg.Prelude.Lists.{
  length, take, keep, update, length-take-le, All, All-imp, AllPairs,
}
use decentralized_claims_reg.Postgres.{ok}
use decentralized_claims_reg.Gasless.Records.{
  State, preparing, prepared, authorized, signed, broadcast, confirmed, failed, expired, Submission,
  Outbox,
}
use decentralized_claims_reg.Gasless.Prepare.{expire}
use decentralized_claims_reg.Gasless.Relay.{
  relayable, relay_rank, before, place, order, overdue_authorization, list_relay_candidates,
}

-- A submission in the first state is served before one in the second.
pub data First : State → State → Type 0 where
  signed_broadcast : First signed broadcast
  signed_authorized : First signed authorized
  broadcast_authorized : First broadcast authorized

-- The row is served first, or has the state of the other and is not younger.
abbrev pub Ahead : Submission → Submission → Type 0
Ahead r s = First r.state s.state ⊎ ((r.state ≡ s.state) × (r.created_at ≤ s.created_at))

-- How the code compares the ranks and the times of two submissions.
abbrev sorts_before : State → State → ℕ → ℕ → Bool
sorts_before a b m n =
    ltb (relay_rank a) (relay_rank b) || (relay_rank a == relay_rank b && leb m n)

sorts_before-Ahead :
    (a b : State) (m n : ℕ)
    → relayable a ≡ true
    → relayable b ≡ true
    → sorts_before a b m n ≡ true
    → First a b ⊎ ((a ≡ b) × (m ≤ n))
unfolding relay_rank relayable
sorts_before-Ahead signed signed m n ha hb h = inr (refl, ground (arith, h))
sorts_before-Ahead signed broadcast m n ha hb h = inl signed_broadcast
sorts_before-Ahead signed authorized m n ha hb h = inl signed_authorized
sorts_before-Ahead broadcast signed m n ha hb h = absurd (ground (arith, h))
sorts_before-Ahead broadcast broadcast m n ha hb h = inr (refl, ground (arith, h))
sorts_before-Ahead broadcast authorized m n ha hb h = inl broadcast_authorized
sorts_before-Ahead authorized signed m n ha hb h = absurd (ground (arith, h))
sorts_before-Ahead authorized broadcast m n ha hb h = absurd (ground (arith, h))
sorts_before-Ahead authorized authorized m n ha hb h = inr (refl, ground (arith, h))
sorts_before-Ahead signed preparing m n ha hb h = absurd (ground (arith, hb))
sorts_before-Ahead signed prepared m n ha hb h = absurd (ground (arith, hb))
sorts_before-Ahead signed confirmed m n ha hb h = absurd (ground (arith, hb))
sorts_before-Ahead signed failed m n ha hb h = absurd (ground (arith, hb))
sorts_before-Ahead signed expired m n ha hb h = absurd (ground (arith, hb))
sorts_before-Ahead broadcast preparing m n ha hb h = absurd (ground (arith, hb))
sorts_before-Ahead broadcast prepared m n ha hb h = absurd (ground (arith, hb))
sorts_before-Ahead broadcast confirmed m n ha hb h = absurd (ground (arith, hb))
sorts_before-Ahead broadcast failed m n ha hb h = absurd (ground (arith, hb))
sorts_before-Ahead broadcast expired m n ha hb h = absurd (ground (arith, hb))
sorts_before-Ahead authorized preparing m n ha hb h = absurd (ground (arith, hb))
sorts_before-Ahead authorized prepared m n ha hb h = absurd (ground (arith, hb))
sorts_before-Ahead authorized confirmed m n ha hb h = absurd (ground (arith, hb))
sorts_before-Ahead authorized failed m n ha hb h = absurd (ground (arith, hb))
sorts_before-Ahead authorized expired m n ha hb h = absurd (ground (arith, hb))
sorts_before-Ahead preparing b m n ha hb h = absurd (ground (arith, ha))
sorts_before-Ahead prepared b m n ha hb h = absurd (ground (arith, ha))
sorts_before-Ahead confirmed b m n ha hb h = absurd (ground (arith, ha))
sorts_before-Ahead failed b m n ha hb h = absurd (ground (arith, ha))
sorts_before-Ahead expired b m n ha hb h = absurd (ground (arith, ha))

abbrev InOrder : Submission → Submission → Type 0
InOrder r s = before r s ≡ true

before_total : (r s : Submission) → before r s ≡ false → InOrder s r
unfolding before
before_total r s h = ground arith

before_trans : (r s t : Submission) → InOrder r s → InOrder s t → InOrder r t
unfolding before
before_trans r s t h k = ground arith

-- What `LIMIT` leaves out.
unfoldable beyond : ℕ → List Submission → List Submission
beyond zero rows = rows
beyond (suc n) [] = []
beyond (suc n) (r ∷ rest) = beyond n rest

take-beyond : (n : ℕ) (rows : List Submission) → take n rows ++ beyond n rows ≡ rows
unfolding take beyond
take-beyond zero rows = refl
take-beyond (suc n) [] = refl
take-beyond (suc n) (r ∷ rest) = ap (◌∷◌ r) (take-beyond n rest)

beyond_cases : (n : ℕ) (rows : List Submission) → (beyond n rows ≡ []) ⊎ (length (take n rows) ≡ n)
unfolding take beyond
beyond_cases zero rows = inr refl
beyond_cases (suc n) [] = inl refl
beyond_cases (suc n) (r ∷ rest) = elim (beyond_cases n rest) [
  | inl none_ ↦ inl none_
  | inr full ↦ inr (ap suc full)
]

All-map₂ :
    (P Q R : Submission → Type 0) (rows : List Submission)
    → ((r : Submission) → P r → Q r → R r)
    → All P rows
    → All Q rows
    → All R rows
All-map₂ P Q R [] k h h' = tt
All-map₂ P Q R (r ∷ rest) k h h' = (k r h.0 h'.0, All-map₂ P Q R rest k h.1 h'.1)

module _ (P : Submission → Type 0) where
  take-All : (n : ℕ) (rows : List Submission) → All P rows → All P (take n rows)
  unfolding take
  take-All zero rows h = tt
  take-All (suc n) [] h = tt
  take-All (suc n) (r ∷ rest) h = (h.0, take-All n rest h.1)

  placed-All :
      (r s : Submission) (rest further : List Submission) (b : Bool)
      → P r
      → P s
      → All P rest
      → All P further
      → All P (if b then r ∷ s ∷ rest else s ∷ further)
  placed-All r s rest further true hr hs h k = (hr, (hs, h))
  placed-All r s rest further false hr hs h k = (hs, k)

  place-All : (r : Submission) (rows : List Submission) → P r → All P rows → All P (place r rows)
  unfolding place
  place-All r [] hr h = (hr, tt)
  place-All r (s ∷ rest) hr h =
      placed-All r s rest (place r rest) (before r s) hr h.0 h.1 (place-All r rest hr h.1)

  order-All : (rows : List Submission) → All P rows → All P (order rows)
  unfolding order
  order-All [] h = tt
  order-All (r ∷ rest) h = place-All r (order rest) h.0 (order-All rest h.1)

place_pairs :
    (r : Submission) (rows : List Submission)
    → AllPairs InOrder rows
    → AllPairs InOrder (place r rows)
unfolding place
place_pairs r [] h = (tt, tt)
place_pairs r (s ∷ rest) h = elim (Bool-cases (before r s)) [
  | inl t ↦
      simp t ((refl, All-imp (InOrder s) (InOrder r) rest (λ x k. before_trans r s x t k) h.0), h)
  | inr t ↦ simp t (place-All (InOrder s) r rest (before_total r s t) h.0, place_pairs r rest h.1)
]

order_pairs : (rows : List Submission) → AllPairs InOrder (order rows)
unfolding order
order_pairs [] = tt
order_pairs (r ∷ rest) = place_pairs r (order rest) (order_pairs rest)

InOrder-Ahead :
    (rows : List Submission)
    → All (λ r. relayable r.state ≡ true) rows
    → AllPairs InOrder rows
    → AllPairs Ahead rows
unfolding before
InOrder-Ahead [] h k = tt
InOrder-Ahead (r ∷ rest) h k = (
  All-map₂ (λ s. relayable s.state ≡ true) (InOrder r) (Ahead r) rest
      (λ s hs ks. sorts_before-Ahead r.state s.state r.created_at s.created_at h.0 hs ks) h.1 k.0,
  InOrder-Ahead rest h.1 k.1,
)

place_Perm : (r : Submission) (rows : List Submission) → Perm (place r rows) (r ∷ rows)
unfolding place
place_Perm r [] = Perm.refl (r ∷ [])
place_Perm r (s ∷ rest) = elim (Bool-cases (before r s)) [
  | inl t ↦ simp t (Perm.refl (r ∷ s ∷ rest))
  | inr t ↦ simp t (Perm.trans (Perm.cons s (place_Perm r rest)) (Perm.swap r s rest))
]

order_Perm : (rows : List Submission) → Perm (order rows) rows
unfolding order
order_Perm [] = Perm.nil
order_Perm (r ∷ rest) = Perm.trans (place_Perm r (order rest)) (Perm.cons r (order_Perm rest))

-- A row that is live after the expiry was live before it, and is not overdue.
abbrev Live : ℕ → Submission → Type 0
Live now r = (relayable r.state ≡ true) × (overdue_authorization now r ≡ false)

keep-Live :
    (now : ℕ) (rows : List Submission)
    → All
        (Live now)
        (keep (λ r. relayable r.state) (update (overdue_authorization now) (expire now) rows))
unfolding keep update expire relayable
keep-Live now [] = tt
keep-Live now (r ∷ rest) = elim (Bool-cases (overdue_authorization now r)) [
  | inl late ↦ simp late (keep-Live now rest)
  | inr early ↦ elim (Bool-cases (relayable r.state)) [
    | inl t ↦ simp (early, t) ((refl, refl), keep-Live now rest)
    | inr f ↦ simp (early, f) (keep-Live now rest)
  ]
]

-- The candidates, together with the rows that are left out, are the authorized, signed and broadcast
-- rows of the table that the call leaves, each as often, and none of them is an authorization past
-- its deadline. Signed rows stand before broadcast ones, these before authorized ones, and within a
-- state the older before the younger, also where a candidate is compared with a row that is left out.
-- There are at most `limit` candidates, and as many as that where a row is left out.
pub list_relay_candidates-InOrder :
    (limit now : ℕ) (s : Outbox)
    → (rows rest : List Submission) × ((list_relay_candidates limit now s).0 ≡ ok rows)
      × Perm
          (rows ++ rest)
          (keep (λ r. relayable r.state) (list_relay_candidates limit now s).1.submissions)
      × All (λ r. overdue_authorization now r ≡ false) rows
      × AllPairs Ahead (rows ++ rest)
      × (length rows ≤ limit)
      × ((rest ≡ []) ⊎ (length rows ≡ limit))
unfolding list_relay_candidates
list_relay_candidates-InOrder limit now s =
    let live : List Submission =
      keep (λ r. relayable r.state)
        (update (overdue_authorization now) (expire now) s.submissions) in
    let whole : take limit (order live) ++ beyond limit (order live) ≡ order live =
      take-beyond limit (order live) in
    let known : All (Live now) (order live) =
      order-All (Live now) live (keep-Live now s.submissions) in
    (
      take limit (order live),
      beyond limit (order live),
      refl,
      subst (λ rows. Perm rows live) (sym whole) (order_Perm live),
      take-All (λ r. overdue_authorization now r ≡ false) limit (order live)
          (All-imp (Live now) (λ r. overdue_authorization now r ≡ false) (order live) (λ r h. h.1)
            known),
      subst (AllPairs Ahead) (sym whole) (
          InOrder-Ahead (order live)
            (All-imp (Live now) (λ r. relayable r.state ≡ true) (order live) (λ r h. h.0) known)
            (order_pairs live)),
      length-take-le limit (order live),
      beyond_cases limit (order live),
    )
