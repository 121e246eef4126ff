-- ===== src/Postgres/Rules.antt =====
-- Rules for what a transaction commits, one for each way to build its body.
use decentralized_claims_reg.Prelude.{
  ◌≡◌, refl, ◌⊎◌, inl, inr, Bool, true, false, Option, none, some,
}
use decentralized_claims_reg.Postgres.{
  Result, ok, err, Action, or_raise, lift, when◌run◌otherwise◌, continue, finish, ◌>>=◌,
}

-- The state that a transaction from `s` leaves when its body ends in `out`.
abbrev pub settle : {S E A : Type 0} → S → Result E A × S → S
settle s (ok a, t) = t
settle s (err e, t) = s

module _ {S E A : Type 0} (P : S → Type 0) (s : S) where
  pub settle-finish :
      (translate : E → E) (out : Result E A × S) → P (settle s out) → P (finish translate s out).1
  settle-finish translate (ok a, t) h = h
  settle-finish translate (err e, t) h = h

  pub settle-when :
      (b : Bool) (m n : Action S E A) (t : S)
      → (b ≡ true → P (settle s (m t)))
      → (b ≡ false → P (settle s (n t)))
      → P (settle s ((when b run m otherwise n) t))
  settle-when true m n t hm hn = hm refl
  settle-when false m n t hm hn = hn refl

module _ {S E A B : Type 0} (P : S → Type 0) (s : S) (same : P s) where
  settle-continue :
      (out : Result E A × S) (f : A → Action S E B)
      → ((a : A) (t : S) → out ≡ (ok a, t) → P (settle s (f a t)))
      → P (settle s (continue out f))
  settle-continue (ok a, t) f h = h a t refl
  settle-continue (err e, t) f h = same

  pub settle-bind :
      (m : Action S E A) (f : A → Action S E B) (t : S)
      → ((a : A) (u : S) → m t ≡ (ok a, u) → P (settle s (f a u)))
      → P (settle s ((m >>= f) t))
  settle-bind m f t h = settle-continue (m t) f h

  pub settle-or_raise :
      (o : Option A) (e : E) (f : A → Action S E B) (t : S)
      → ((a : A) → o ≡ some a → P (settle s (f a t)))
      → P (settle s ((or_raise o e >>= f) t))
  settle-or_raise none e f t h = same
  settle-or_raise (some a) e f t h = h a refl

  pub settle-lift :
      (r : Result E A) (f : A → Action S E B) (t : S)
      → ((a : A) → r ≡ ok a → P (settle s (f a t)))
      → P (settle s ((lift r >>= f) t))
  settle-lift (ok a) f t h = h a refl
  settle-lift (err e) f t h = same

-- Rules for a predicate on how an action ends.
module _ {S E A : Type 0} (P : Result E A × S → Type 0) where
  pub when_ends :
      (b : Bool) (m n : Action S E A) (t : S)
      → (b ≡ true → P (m t))
      → (b ≡ false → P (n t))
      → P ((when b run m otherwise n) t)
  when_ends true m n t hm hn = hm refl
  when_ends false m n t hm hn = hn refl

  pub continue_ends :
      {B : Type 0} (out : Result E B × S) (f : B → Action S E A)
      → ((b : B) (u : S) → out ≡ (ok b, u) → P (f b u))
      → ((e : E) (u : S) → out ≡ (err e, u) → P (err e, u))
      → P (continue out f)
  continue_ends (ok b, u) f h k = h b u refl
  continue_ends (err e, u) f h k = k e u refl

  pub bind_ends :
      {B : Type 0} (m : Action S E B) (f : B → Action S E A) (t : S)
      → ((b : B) (u : S) → m t ≡ (ok b, u) → P (f b u))
      → ((e : E) (u : S) → m t ≡ (err e, u) → P (err e, u))
      → P ((m >>= f) t)
  bind_ends m f t h k = continue_ends (m t) f h k

  pub or_raise_ends :
      {B : Type 0} (o : Option B) (e : E) (f : B → Action S E A) (t : S)
      → ((b : B) → o ≡ some b → P (f b t))
      → (o ≡ none → P (err e, t))
      → P ((or_raise o e >>= f) t)
  or_raise_ends none e f t h k = k refl
  or_raise_ends (some b) e f t h k = h b refl

pub Result-cases :
    {E A : Type 0} (r : Result E A) → ((a : A) × (r ≡ ok a)) ⊎ ((e : E) × (r ≡ err e))
Result-cases (ok a) = inl (a, refl)
Result-cases (err e) = inr (e, refl)

pub Outcome-cases :
    {S E A : Type 0} (out : Result E A × S)
    → ((a : A) × (s : S) × (out ≡ (ok a, s))) ⊎ ((e : E) × (s : S) × (out ≡ (err e, s)))
Outcome-cases (ok a, s) = inl (a, s, refl)
Outcome-cases (err e, s) = inr (e, s, refl)
