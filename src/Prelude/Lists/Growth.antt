-- ===== src/Prelude/Lists/Growth.antt =====
-- Tables of which a change only lets rows grow or adds new ones.
use mathlib.Core.Bool.{Bool}
use mathlib.Core.Logic.{inl, inr}
use mathlib.Core.List.{List, [], ◌∷◌, ◌++◌}
use decentralized_claims_reg.Prelude.Lists.Predicates.{
  update, patch, All, Some, AllPairs, Grows, All-imp, All-append,
}

module _ {ℓ} {A : Type ℓ} where
  module _ (R : A → A → Type 0) (N : A → Type 0) where
    pub Grows-refl : (xs : List A) → ((x : A) → R x x) → Grows R N xs xs
    Grows-refl [] r = tt
    Grows-refl (x ∷ xs) r = (r x, Grows-refl xs r)

    pub Grows-update :
        (P : A → Type 0) (p : A → Bool) (f : A → A) (xs : List A)
        → ((x : A) → P x → R x (patch p f x))
        → All P xs
        → Grows R N xs (update p f xs)
    unfolding update
    Grows-update P p f [] step h = tt
    Grows-update P p f (x ∷ xs) step h = (step x h.0, Grows-update P p f xs step h.1)

    pub Grows-update_all :
        (p : A → Bool) (f : A → A) (xs : List A)
        → ((x : A) → R x (patch p f x))
        → Grows R N xs (update p f xs)
    unfolding update
    Grows-update_all p f [] step = tt
    Grows-update_all p f (x ∷ xs) step = (step x, Grows-update_all p f xs step)

    pub Grows-update_twice :
        (p q : A → Bool) (f g : A → A) (xs : List A)
        → ((x : A) → R x (patch q g (patch p f x)))
        → Grows R N xs (update q g (update p f xs))
    unfolding update
    Grows-update_twice p q f g [] step = tt
    Grows-update_twice p q f g (x ∷ xs) step = (step x, Grows-update_twice p q f g xs step)

    pub Grows-append : (xs ys zs : List A) → Grows R N xs ys → All N zs → Grows R N xs (ys ++ zs)
    Grows-append [] ys zs g n = All-append N ys zs g n
    Grows-append (x ∷ xs) [] zs g n = absurd g
    Grows-append (x ∷ xs) (y ∷ ys) zs g n = (g.0, Grows-append xs ys zs g.1 n)

    -- Growth composes where `R` does, and where what is new stays new.
    pub Grows-trans :
        (xs ys zs : List A)
        → ((x y z : A) → R x y → R y z → R x z)
        → ((y z : A) → N y → R y z → N z)
        → Grows R N xs ys
        → Grows R N ys zs
        → Grows R N xs zs
    Grows-trans [] [] zs t n g h = h
    Grows-trans [] (y ∷ ys) [] t n g h = absurd h
    Grows-trans [] (y ∷ ys) (z ∷ zs) t n g h = (n y z g.0 h.0, Grows-trans [] ys zs t n g.1 h.1)
    Grows-trans (x ∷ xs) [] zs t n g h = absurd g
    Grows-trans (x ∷ xs) (y ∷ ys) [] t n g h = absurd h
    Grows-trans (x ∷ xs) (y ∷ ys) (z ∷ zs) t n g h =
        (t x y z g.0 h.0, Grows-trans xs ys zs t n g.1 h.1)

  module _ (P : A → Type 0) (R S : A → A → Type 0) (M N : A → Type 0) where
    pub Grows-imp :
        (xs ys : List A)
        → ((x y : A) → P x → R x y → S x y)
        → ((y : A) → M y → N y)
        → All P xs
        → Grows R M xs ys
        → Grows S N xs ys
    Grows-imp [] ys f g h k = All-imp M N ys g k
    Grows-imp (x ∷ xs) [] f g h k = absurd k
    Grows-imp (x ∷ xs) (y ∷ ys) f g h k = (f x y h.0 k.0, Grows-imp xs ys f g h.1 k.1)

  module _ (P : A → Type 0) (R : A → A → Type 0) (N Q : A → Type 0) where
    pub Grows-All :
        (xs ys : List A)
        → ((x y : A) → P x → R x y → Q y)
        → ((y : A) → N y → Q y)
        → All P xs
        → Grows R N xs ys
        → All Q ys
    Grows-All [] ys f g h k = All-imp N Q ys g k
    Grows-All (x ∷ xs) [] f g h k = absurd k
    Grows-All (x ∷ xs) (y ∷ ys) f g h k = (f x y h.0 k.0, Grows-All xs ys f g h.1 k.1)

  module _ (R : A → A → Type 0) (N P Q : A → Type 0) where
    pub Grows-Some :
        (xs ys : List A) → ((x y : A) → R x y → P x → Q y) → Grows R N xs ys → Some P xs → Some Q ys
    Grows-Some (x ∷ xs) [] k g h = absurd g
    Grows-Some (x ∷ xs) (y ∷ ys) k g (inl h) = inl (k x y g.0 h)
    Grows-Some (x ∷ xs) (y ∷ ys) k g (inr h) = inr (Grows-Some xs ys k g.1 h)
    Grows-Some [] ys k g h = absurd h

  -- Growth by nothing new keeps what holds between any two rows, where `R` does.
  module _ (R S : A → A → Type 0) where
    pub Grows-AllPairs :
        (xs ys : List A)
        → ((x x' y y' : A) → R x x' → R y y' → S x y → S x' y')
        → Grows R (λ _. ⊥) xs ys
        → AllPairs S xs
        → AllPairs S ys
    Grows-AllPairs [] [] k g h = tt
    Grows-AllPairs [] (y ∷ ys) k g h = absurd g.0
    Grows-AllPairs (x ∷ xs) [] k g h = absurd g
    Grows-AllPairs (x ∷ xs) (x' ∷ ys) k g h = (
      Grows-All (S x) R (λ _. ⊥) (S x') xs ys (λ y y' s m. k x x' y y' g.0 m s)
          (λ y none. absurd none) h.0 g.1,
      Grows-AllPairs xs ys k g.1 h.1,
    )
