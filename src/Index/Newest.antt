-- ===== src/Index/Newest.antt =====
-- The order in which the events are listed.
use decentralized_claims_reg.Prelude.{
  String, Bool, true, false, List, [], ◌∷◌, ◌≡◌, ◌≢◌, refl, sym, ap, ◌∙◌, ◌⊎◌, inl, inr, arith,
  Bool-cases,
}
use decentralized_claims_reg.Prelude.Lists.{keep, All, All-imp, AllPairs}
use decentralized_claims_reg.Index.Tables.{EventRow}
use decentralized_claims_reg.Index.Search.{Position, position, position_lt, place, newest_first}

-- What a collation is: a strict order in which any two texts compare.
pub record IsCollation (text_lt : String → String → Bool) : Type 0 where
  pub irreflexive : (s : String) → text_lt s s ≡ false
  pub transitive : (s t u : String) → text_lt s t ≡ true → text_lt t u ≡ true → text_lt s u ≡ true
  pub total : (s t : String) → s ≢ t → (text_lt s t ≡ true) ⊎ (text_lt t s ≡ true)

pub keep-All_same {ℓ} :
    {A : Type ℓ}
    → (p : A → Bool) (P : A → Type 0) (rows : List A) → All P rows
    → All P (keep p rows)
unfolding keep
keep-All_same p P [] h = tt
keep-All_same p P (r ∷ rest) h = elim (Bool-cases (p r)) [
  | inl e ↦ rw e (h.0, keep-All_same p P rest h.1)
  | inr e ↦ rw e (keep-All_same p P rest h.1)
]

module _ (text_lt : String → String → Bool) (o : IsCollation text_lt) where
  abbrev pub lt : Position → Position → Bool
  lt = position_lt text_lt

  pub lt_irreflexive : (p : Position) → lt p p ≡ false
  unfolding position_lt
  lt_irreflexive p = ground (arith, o.irreflexive p.event_id)

  pub lt_transitive : (p q r : Position) → lt p q ≡ true → lt q r ≡ true → lt p r ≡ true
  unfolding position_lt
  lt_transitive p q r h k = elim (Bool-cases (text_lt p.event_id q.event_id)) [
    | inr f ↦ ground (arith, f)
    | inl t ↦ elim (Bool-cases (text_lt q.event_id r.event_id)) [
      | inr f ↦ ground (arith, f)
      | inl u ↦ ground (arith, o.transitive p.event_id q.event_id r.event_id t u)
    ]
  ]

  lt_total : (p q : Position) → p.event_id ≢ q.event_id → lt p q ≡ false → lt q p ≡ true
  unfolding position_lt
  lt_total p q d h = elim (o.total p.event_id q.event_id d) [
    | inl t ↦ ground (arith, t)
    | inr t ↦ ground (arith, t)
  ]

  pub lt_asymmetric : (p q : Position) → lt p q ≡ true → lt q p ≡ false
  lt_asymmetric p q h = elim (Bool-cases (lt q p)) [
    | inr f ↦ f
    | inl t ↦ absurd (ground (arith, lt_transitive p q p h t, lt_irreflexive p))
  ]

  abbrev pub Newer : EventRow → EventRow → Type 0
  Newer x y = lt (position y) (position x) ≡ true

  abbrev pub Sorted : List EventRow → Type 0
  Sorted = AllPairs Newer

  place-All :
      (P : EventRow → Type 0) (r : EventRow) (rows : List EventRow)
      → P r
      → All P rows
      → All P (place text_lt r rows)
  unfolding place
  place-All P r [] hr h = (hr, tt)
  place-All P r (s ∷ rest) hr h = elim (Bool-cases (lt (position s) (position r))) [
    | inl t ↦ rw t (hr, h)
    | inr t ↦ rw t (h.0, place-All P r rest hr h.1)
  ]

  pub newest_first-All :
      (P : EventRow → Type 0) (rows : List EventRow)
      → All P rows
      → All P (newest_first text_lt rows)
  unfolding newest_first
  newest_first-All P [] h = tt
  newest_first-All P (r ∷ rest) h =
      place-All P r (newest_first text_lt rest) h.0 (newest_first-All P rest h.1)

  place-Sorted :
      (r : EventRow) (rows : List EventRow)
      → All (λ s. r.event_id ≢ s.event_id) rows
      → Sorted rows
      → Sorted (place text_lt r rows)
  unfolding place
  place-Sorted r [] d h = (tt, tt)
  place-Sorted r (s ∷ rest) d h = elim (Bool-cases (lt (position s) (position r))) [
    | inl t ↦ rw t (
      (
        t,
        All-imp (Newer s) (Newer r) rest
            (λ y k. lt_transitive (position y) (position s) (position r) k t) h.0,
      ),
      h,
    )
    | inr t ↦ rw t (
      place-All (Newer s) r rest (lt_total (position s) (position r) (λ e. d.0 (sym e)) t) h.0,
      place-Sorted r rest d.1 h.1,
    )
  ]

  pub newest_first-Sorted :
      (rows : List EventRow)
      → AllPairs (λ r s. r.event_id ≢ s.event_id) rows
      → Sorted (newest_first text_lt rows)
  unfolding newest_first
  newest_first-Sorted [] u = tt
  newest_first-Sorted (r ∷ rest) u =
      place-Sorted r (newest_first text_lt rest)
        (newest_first-All (λ s. r.event_id ≢ s.event_id) rest u.0) (newest_first-Sorted rest u.1)

  module _ (p : EventRow → Bool) where
    keep-place_out :
        (r : EventRow) (rows : List EventRow)
        → p r ≡ false
        → keep p (place text_lt r rows) ≡ keep p rows
    unfolding place keep
    keep-place_out r [] e = rw e refl
    keep-place_out r (s ∷ rest) e = elim (Bool-cases (lt (position s) (position r))) [
      | inl t ↦ rw t (rw e refl)
      | inr t ↦ rw t (elim (Bool-cases (p s)) [
        | inl k ↦ rw k (ap (◌∷◌ s) (keep-place_out r rest e))
        | inr k ↦ rw k (keep-place_out r rest e)
      ])
    ]

    place_first :
        (r : EventRow) (rows : List EventRow) → All (Newer r) rows → place text_lt r rows ≡ r ∷ rows
    unfolding place
    place_first r [] h = refl
    place_first r (s ∷ rest) h = rw h.0 refl

    keep-place_in :
        (r : EventRow) (rows : List EventRow)
        → Sorted rows
        → p r ≡ true
        → keep p (place text_lt r rows) ≡ place text_lt r (keep p rows)
    unfolding place keep
    keep-place_in r [] h e = rw e refl
    keep-place_in r (s ∷ rest) h e = elim (Bool-cases (lt (position s) (position r))) [
      | inl t ↦ rw t (
          rw e (elim (Bool-cases (p s)) [
            | inl k ↦ rw k (rw t refl)
            | inr k ↦ rw k (
                sym (
                  place_first r (keep p rest) (
                    keep-All_same p (Newer r) rest (
                      All-imp (Newer s) (Newer r) rest
                        (λ y j. lt_transitive (position y) (position s) (position r) j t) h.0))))
          ]))
      | inr t ↦ rw t (elim (Bool-cases (p s)) [
        | inl k ↦ rw k (rw t (ap (◌∷◌ s) (keep-place_in r rest h.1 e)))
        | inr k ↦ rw k (keep-place_in r rest h.1 e)
      ])
    ]

    -- Keeping some events and ordering them commute.
    pub keep-newest_first :
        (rows : List EventRow)
        → AllPairs (λ r s. r.event_id ≢ s.event_id) rows
        → keep p (newest_first text_lt rows) ≡ newest_first text_lt (keep p rows)
    unfolding newest_first keep
    keep-newest_first [] u = refl
    keep-newest_first (r ∷ rest) u = elim (Bool-cases (p r)) [
      | inl e ↦ rw e (
          keep-place_in r (newest_first text_lt rest) (newest_first-Sorted rest u.1) e
          ∙ ap (place text_lt r) (keep-newest_first rest u.1))
      | inr e ↦ rw e (keep-place_out r (newest_first text_lt rest) e ∙ keep-newest_first rest u.1)
    ]
