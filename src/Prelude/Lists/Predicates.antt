-- ===== src/Prelude/Lists/Predicates.antt =====
-- Predicates on the rows of a table, and how a row update and an insertion keep them.
use mathlib.Core.Path.{◌≡◌, refl, ap, subst, sym}
use mathlib.Core.Bool.{Bool, true, false, cond, ◌&&◌}
use mathlib.Core.Logic.{inl, inr, ◌⊎◌}
use decentralized_claims_reg.Prelude.Cases.{Bool-cases}
use mathlib.Core.Option.{Option, none, some}
use mathlib.Core.List.{List, [], ◌∷◌, ◌++◌}
use native.Mathlib.Omega.{arith}

module _ {ℓ} {A : Type ℓ} where
  -- `SELECT … WHERE p`, first row
  unfoldable pub find : (A → Bool) → List A → Option A
  find p [] = none
  find p (x ∷ xs) = cond (p x) (some x) (find p xs)

  -- what `UPDATE … SET f WHERE p` makes of one row
  abbrev pub patch : (A → Bool) → (A → A) → A → A
  patch p f x = cond (p x) (f x) x

  -- `UPDATE … SET f WHERE p`
  unfoldable pub update : (A → Bool) → (A → A) → List A → List A
  update p f [] = []
  update p f (x ∷ xs) = patch p f x ∷ update p f xs

  -- `SELECT … WHERE p`, every row
  unfoldable pub keep : (A → Bool) → List A → List A
  keep p [] = []
  keep p (x ∷ xs) = let rest = keep p xs in cond (p x) (x ∷ rest) rest

  abbrev pub All : (A → Type 0) → List A → Type 0
  All P [] = Unit
  All P (x ∷ xs) = P x × All P xs

  abbrev pub Some : (A → Type 0) → List A → Type 0
  Some P [] = ⊥
  Some P (x ∷ xs) = P x ⊎ Some P xs

  -- Every earlier element stands in `R` to every later one.
  abbrev pub AllPairs : (A → A → Type 0) → List A → Type 0
  AllPairs R [] = Unit
  AllPairs R (x ∷ xs) = All (R x) xs × AllPairs R xs

  -- `ys` is `xs` element by element in `R`, with further elements in `N` at its end.
  abbrev pub Grows : (A → A → Type 0) → (A → Type 0) → List A → List A → Type 0
  Grows R N [] ys = All N ys
  Grows R N (x ∷ xs) [] = ⊥
  Grows R N (x ∷ xs) (y ∷ ys) = R x y × Grows R N xs ys

  pub keep-append : (p : A → Bool) (xs ys : List A) → keep p (xs ++ ys) ≡ keep p xs ++ keep p ys
  unfolding keep
  keep-append p [] ys = refl
  keep-append p (x ∷ xs) ys = elim (Bool-cases (p x)) [
    | inl t ↦ rw t (ap (◌∷◌ x) (keep-append p xs ys))
    | inr t ↦ rw t (keep-append p xs ys)
  ]

  pub keep-keep : (p q : A → Bool) (xs : List A) → keep p (keep q xs) ≡ keep (λ x. q x && p x) xs
  unfolding keep
  keep-keep p q [] = refl
  keep-keep p q (x ∷ xs) = elim (Bool-cases (q x)) [
    | inr f ↦ rw f (keep-keep p q xs)
    | inl t ↦ rw t (elim (Bool-cases (p x)) [
      | inl s ↦ rw s (ap (◌∷◌ x) (keep-keep p q xs))
      | inr s ↦ rw s (keep-keep p q xs)
    ])
  ]

  pub keep-same : (p q : A → Bool) (xs : List A) → ((x : A) → p x ≡ q x) → keep p xs ≡ keep q xs
  unfolding keep
  keep-same p q [] e = refl
  keep-same p q (x ∷ xs) e = elim (Bool-cases (q x)) [
    | inl t ↦ rw (e x) (rw t (ap (◌∷◌ x) (keep-same p q xs e)))
    | inr t ↦ rw (e x) (rw t (keep-same p q xs e))
  ]

  pub keep_none : (p : A → Bool) (xs : List A) → All (λ x. p x ≡ false) xs → keep p xs ≡ []
  unfolding keep
  keep_none p [] h = refl
  keep_none p (x ∷ xs) h = rw h.0 (keep_none p xs h.1)

  pub keep_every : (p : A → Bool) (xs : List A) → All (λ x. p x ≡ true) xs → keep p xs ≡ xs
  unfolding keep
  keep_every p [] h = refl
  keep_every p (x ∷ xs) h = rw h.0 (ap (◌∷◌ x) (keep_every p xs h.1))

  pub All-trivial : (xs : List A) → All (λ _. Unit) xs
  All-trivial [] = tt
  All-trivial (x ∷ xs) = (tt, All-trivial xs)

  pub find-true : (p : A → Bool) (xs : List A) (x : A) → find p xs ≡ some x → p x ≡ true
  unfolding find
  find-true p [] x e = cc
  find-true p (y ∷ xs) x e = elim (Bool-cases (p y)) [
    | inl h ↦ ground arith
    | inr h ↦ find-true p xs x (ground arith)
  ]

  pub find-none : (p : A → Bool) (xs : List A) → find p xs ≡ none → All (λ x. p x ≡ false) xs
  unfolding find
  find-none p [] e = tt
  find-none p (y ∷ xs) e = elim (Bool-cases (p y)) [
    | inl h ↦ absurd (ground arith)
    | inr h ↦ (h, find-none p xs (ground arith))
  ]

  -- An update that finds no row changes none.
  pub update-none : (p : A → Bool) (f : A → A) (xs : List A) → find p xs ≡ none → update p f xs ≡ xs
  unfolding find update
  update-none p f [] e = refl
  update-none p f (y ∷ xs) e = elim (Bool-cases (p y)) [
    | inl h ↦ absurd (ground arith)
    | inr h ↦ rw h (ap (◌∷◌ y) (update-none p f xs (ground arith)))
  ]

  module _ (P : A → Type 0) where
    pub Some-left : (xs ys : List A) → Some P xs → Some P (xs ++ ys)
    Some-left (x ∷ xs) ys (inl h) = inl h
    Some-left (x ∷ xs) ys (inr h) = inr (Some-left xs ys h)
    Some-left [] ys h = absurd h

    pub Some-last : (xs : List A) (y : A) → P y → Some P (xs ++ y ∷ [])
    Some-last [] y h = inl h
    Some-last (x ∷ xs) y h = inr (Some-last xs y h)

    -- A row that is found is one of the rows.
    pub find-Some : (p : A → Bool) (xs : List A) (x : A) → find p xs ≡ some x → P x → Some P xs
    unfolding find
    find-Some p [] x e h = cc
    find-Some p (y ∷ xs) x e h = elim (Bool-cases (p y)) [
      | inl t ↦ let same : y ≡ x = ground arith in inl (subst P (sym same) h)
      | inr t ↦ inr (find-Some p xs x (ground arith) h)
    ]

    -- A row that has `P`, and so is kept, is among those kept.
    pub Some-keep :
        (p : A → Bool) (xs : List A) → ((x : A) → P x → p x ≡ true) → Some P xs → Some P (keep p xs)
    unfolding keep
    Some-keep p (x ∷ xs) k (inl h) = rw (k x h) (inl h)
    Some-keep p (x ∷ xs) k (inr h) = elim (Bool-cases (p x)) [
      | inl t ↦ rw t (inr (Some-keep p xs k h))
      | inr t ↦ rw t (Some-keep p xs k h)
    ]
    Some-keep p [] k h = absurd h

    pub keep-All : (p : A → Bool) (xs : List A) → ((x : A) → p x ≡ true → P x) → All P (keep p xs)
    unfolding keep
    keep-All p [] k = tt
    keep-All p (x ∷ xs) k = elim (Bool-cases (p x)) [
      | inl t ↦ rw t (k x t, keep-All p xs k)
      | inr t ↦ rw t (keep-All p xs k)
    ]

    pub All-append : (xs ys : List A) → All P xs → All P ys → All P (xs ++ ys)
    All-append [] ys hx hy = hy
    All-append (x ∷ xs) ys hx hy = (hx.0, All-append xs ys hx.1 hy)

    -- A row that is found has what every row has.
    pub find-All : (p : A → Bool) (xs : List A) (x : A) → All P xs → find p xs ≡ some x → P x
    unfolding find
    find-All p [] x h e = cc
    find-All p (y ∷ xs) x h e = elim (Bool-cases (p y)) [
      | inl t ↦ let same : y ≡ x = ground arith in subst P same h.0
      | inr t ↦ find-All p xs x h.1 (ground arith)
    ]

  module _ (P Q : A → Type 0) where
    pub All-imp : (xs : List A) → ((x : A) → P x → Q x) → All P xs → All Q xs
    All-imp [] f h = tt
    All-imp (x ∷ xs) f h = (f x h.0, All-imp xs f h.1)

    pub Some-imp : (xs : List A) → ((x : A) → P x → Q x) → Some P xs → Some Q xs
    Some-imp (x ∷ xs) f (inl h) = inl (f x h)
    Some-imp (x ∷ xs) f (inr h) = inr (Some-imp xs f h)
    Some-imp [] f h = absurd h

    pub All-zip : (xs : List A) → All P xs → All Q xs → All (λ x. P x × Q x) xs
    All-zip [] hp hq = tt
    All-zip (x ∷ xs) hp hq = ((hp.0, hq.0), All-zip xs hp.1 hq.1)

    pub Some-update :
        (p : A → Bool) (f : A → A) (xs : List A)
        → ((x : A) → P x → Q (patch p f x))
        → Some P xs
        → Some Q (update p f xs)
    unfolding update
    Some-update p f (x ∷ xs) step (inl h) = inl (step x h)
    Some-update p f (x ∷ xs) step (inr h) = inr (Some-update p f xs step h)
    Some-update p f [] step h = absurd h

    pub All-update :
        (p : A → Bool) (f : A → A) (xs : List A)
        → ((x : A) → P x → Q (patch p f x))
        → All P xs
        → All Q (update p f xs)
    unfolding update
    All-update p f [] step h = tt
    All-update p f (x ∷ xs) step h = (step x h.0, All-update p f xs step h.1)

  module _ (P : A → Type 0) (R S : A → A → Type 0) where
    pub AllPairs-update :
        (p : A → Bool) (f : A → A) (xs : List A)
        → ((x y : A) → P x → P y → R x y → S (patch p f x) (patch p f y))
        → All P xs
        → AllPairs R xs
        → AllPairs S (update p f xs)
    unfolding update
    AllPairs-update p f [] step h r = tt
    AllPairs-update p f (x ∷ xs) step h r = (
      All-update (λ y. P y × R x y) (S (patch p f x)) p f xs (λ y k. step x y h.0 k.0 k.1)
          (All-zip P (R x) xs h.1 r.0),
      AllPairs-update p f xs step h.1 r.1,
    )

  module _ (R S : A → A → Type 0) where
    pub AllPairs-imp : (xs : List A) → ((x y : A) → R x y → S x y) → AllPairs R xs → AllPairs S xs
    AllPairs-imp [] f r = tt
    AllPairs-imp (x ∷ xs) f r = (All-imp (R x) (S x) xs (f x) r.0, AllPairs-imp xs f r.1)

    pub AllPairs-zip :
        (xs : List A) → AllPairs R xs → AllPairs S xs → AllPairs (λ x y. R x y × S x y) xs
    AllPairs-zip [] r s = tt
    AllPairs-zip (x ∷ xs) r s = (All-zip (R x) (S x) xs r.0 s.0, AllPairs-zip xs r.1 s.1)

  module _ (R : A → A → Type 0) where
    pub AllPairs-append_one :
        (xs : List A) (y : A) → All (λ x. R x y) xs → AllPairs R xs → AllPairs R (xs ++ y ∷ [])
    AllPairs-append_one [] y h r = (tt, tt)
    AllPairs-append_one (x ∷ xs) y h r =
        (All-append (R x) xs (y ∷ []) r.0 (h.0, tt), AllPairs-append_one xs y h.1 r.1)
