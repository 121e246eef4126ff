-- ===== src/Prelude/Lists.antt =====
-- Tables as lists: native lengths, `SELECT`, `UPDATE` and `COUNT`, and predicates by recursion.
pub mod Predicates
pub mod Growth
pub mod Finding
unfoldable pub use Predicates.*
pub use Growth.*
pub use Finding.*
pub use mathlib.Core.List.{append-nil, append_assoc}
use Prim.Native.Nat.{ℕ, zero, suc, ◌+◌, ◌≤◌}
use mathlib.Core.Bool.{Bool, cond}
use mathlib.Core.Path.{◌≡◌, refl, ap, ◌∙◌}
use mathlib.Core.Option.{Option, none, some}
use mathlib.Core.List.{List, [], ◌∷◌, ◌++◌}
use native.Mathlib.Omega.{arith}

module _ {ℓ} {A : Type ℓ} where
  abbrev pub length : List A → ℕ
  length [] = 0
  length (x ∷ xs) = suc (length xs)

  unfoldable pub take : ℕ → List A → List A
  take zero xs = []
  take (suc n) [] = []
  take (suc n) (x ∷ xs) = x ∷ take n xs

  unfoldable pub get_elem? : List A → ℕ → Option A
  get_elem? [] n = none
  get_elem? (x ∷ xs) zero = some x
  get_elem? (x ∷ xs) (suc n) = get_elem? xs n

  -- `COUNT(*) … WHERE p`
  unfoldable pub count_where : (A → Bool) → List A → ℕ
  count_where p [] = 0
  count_where p (x ∷ xs) = cond (p x) 1 0 + count_where p xs

  -- One element more is the element at the end of what was taken.
  take-suc :
      (n : ℕ) (xs : List A) (x : A)
      → get_elem? xs n ≡ some x
      → take (suc n) xs ≡ take n xs ++ x ∷ []
  unfolding take get_elem?
  take-suc n [] x e = cc
  take-suc zero (y ∷ xs) x e = ground arith
  take-suc (suc n) (y ∷ xs) x e = ap (◌∷◌ y) (take-suc n xs x e)

  pub take_next :
      (n : ℕ) (xs : List A) (x : A)
      → get_elem? xs n ≡ some x
      → take (n + 1) xs ≡ take n xs ++ x ∷ []
  take_next n xs x e =
      let next : n + 1 ≡ suc n = omega arith in ap (λ k. take k xs) next ∙ take-suc n xs x e

  pub length-take-le : (n : ℕ) (xs : List A) → length (take n xs) ≤ n
  unfolding take
  length-take-le (suc n) (x ∷ xs) = omega (arith, length-take-le n xs)
  length-take-le (suc n) [] = omega arith
  length-take-le zero xs = omega arith
