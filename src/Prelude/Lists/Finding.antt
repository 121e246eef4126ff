-- ===== src/Prelude/Lists/Finding.antt =====
-- What a lookup finds after an insertion or an update.
use mathlib.Core.Path.{◌≡◌, refl}
use mathlib.Core.Bool.{Bool, true, false}
use mathlib.Core.Logic.{inl, inr}
use mathlib.Core.Option.{none, some}
use mathlib.Core.List.{List, [], ◌∷◌, ◌++◌}
use native.Mathlib.Omega.{arith}
use decentralized_claims_reg.Prelude.Cases.{Bool-cases}
use decentralized_claims_reg.Prelude.Lists.Predicates.{find, update, All, All-imp, AllPairs}

module _ {ℓ} {A : Type ℓ} (p : A → Bool) where
  pub find-append : (xs ys : List A) → find p xs ≡ none → find p (xs ++ ys) ≡ find p ys
  unfolding find
  find-append [] ys e = refl
  find-append (x ∷ xs) ys e = elim (Bool-cases (p x)) [
    | inl t ↦ absurd (ground arith)
    | inr t ↦ rw t (find-append xs ys (ground arith))
  ]

  pub find-append_found : (xs ys : List A) (x : A) → find p xs ≡ some x → find p (xs ++ ys) ≡ some x
  unfolding find
  find-append_found [] ys x e = cc
  find-append_found (y ∷ xs) ys x e = elim (Bool-cases (p y)) [
    | inl t ↦ rw t (ground arith)
    | inr t ↦ rw t (find-append_found xs ys x (ground arith))
  ]

  pub find-append_other : (xs : List A) (y : A) → p y ≡ false → find p (xs ++ y ∷ []) ≡ find p xs
  unfolding find
  find-append_other [] y e = rw e refl
  find-append_other (x ∷ xs) y e = elim (Bool-cases (p x)) [
    | inl t ↦ rw t refl
    | inr t ↦ rw t (find-append_other xs y e)
  ]

  pub find-update :
      (f : A → A) (xs : List A) (x : A)
      → ((y : A) → p y ≡ true → p (f y) ≡ true)
      → find p xs ≡ some x
      → find p (update p f xs) ≡ some (f x)
  unfolding find update
  find-update f [] x k e = cc
  find-update f (y ∷ xs) x k e = elim (Bool-cases (p y)) [
    | inl t ↦ rw t (rw (k y t) (ground arith))
    | inr t ↦ rw t (rw t (find-update f xs x k (ground arith)))
  ]

  pub find-update_other :
      (q : A → Bool) (f : A → A) (xs : List A)
      → ((y : A) → q y ≡ true → p y ≡ false)
      → ((y : A) → q y ≡ true → p (f y) ≡ false)
      → find p (update q f xs) ≡ find p xs
  unfolding find update
  find-update_other q f [] k k' = refl
  find-update_other q f (y ∷ xs) k k' = elim (Bool-cases (q y)) [
    | inl t ↦ rw t (rw (k y t, k' y t) (find-update_other q f xs k k'))
    | inr t ↦ rw t (elim (Bool-cases (p y)) [
      | inl s ↦ rw s refl
      | inr s ↦ rw s (find-update_other q f xs k k')
    ])
  ]

module _ {A : Type 0} (p : A → Bool) where
  -- Where no two rows are both selected, the row that is found is the only one.
  pub find_only :
      (rows : List A) (r : A)
      → AllPairs (λ x y. p x ≡ true → p y ≡ true → ⊥) rows
      → find p rows ≡ some r
      → All (λ x. p x ≡ true → x ≡ r) rows
  unfolding find
  find_only [] r u e = tt
  find_only (x ∷ rows) r u e = elim (Bool-cases (p x)) [
    | inl t ↦
        let same : x ≡ r = ground arith in
        (
          λ _. same,
          All-imp (λ y. p x ≡ true → p y ≡ true → ⊥) (λ y. p y ≡ true → y ≡ r) rows
              (λ y d h. absurd (d t h)) u.0,
        )
    | inr t ↦
        let below : find p rows ≡ some r = ground arith in
        (λ h. absurd (ground arith), find_only rows r u.1 below)
  ]
