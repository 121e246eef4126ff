-- ===== src/Postgres.antt =====
-- packages/integrations/postgres/database.py: a repository operation is one transaction. Inside
-- it each statement sees what the earlier ones wrote; an exception rolls all of it back.
pub mod Rules
use decentralized_claims_reg.Prelude.{Bool, true, false, Option, none, some}

pub data Result {ℓ κ} (E : Type ℓ) (A : Type κ) : Type (ℓ ⊔ κ) where
  ok : A → Result E A
  err : E → Result E A

-- An action on the state `S` that returns or raises, and keeps what it wrote.
abbrev pub Action : Type 0 → Type 0 → Type 0 → Type 0
Action S E A = S → Result E A × S

module _ {S E A : Type 0} where
  abbrev pub pure : A → Action S E A
  pure a s = (ok a, s)

  abbrev pub raise : E → Action S E A
  raise e s = (err e, s)

  abbrev pub gets : (S → A) → Action S E A
  gets f s = (ok (f s), s)

  -- a Python value that may be an exception
  abbrev pub lift : Result E A → Action S E A
  lift r s = (r, s)

  -- `_record(row)`: the row, or the error for a missing one
  abbrev pub or_raise : Option A → E → Action S E A
  or_raise none e = raise e
  or_raise (some a) e = pure a

abbrev pub modify : {S E : Type 0} → (S → S) → Action S E (Unit {0})
modify f s = (ok tt, f s)

abbrev pub continue : {S E A B : Type 0} → Result E A × S → (A → Action S E B) → Result E B × S
continue (ok a, s) f = f a s
continue (err e, s) f = (err e, s)

infixl 5 ◌>>=◌ ◌>>◌
abbrev pub ◌>>=◌ : {S E A B : Type 0} → Action S E A → (A → Action S E B) → Action S E B
◌>>=◌ m f s = continue (m s) f

abbrev pub ◌>>◌ : {S E A B : Type 0} → Action S E A → Action S E B → Action S E B
m >> k = m >>= λ _. k

-- `if b: … else: …` between actions; it computes once the state is given.
infix 1 when◌run◌otherwise◌
abbrev pub when◌run◌otherwise◌ :
    {S E A : Type 0} → Bool → Action S E A → Action S E A → Action S E A
when◌run◌otherwise◌ b m n s = elim b [ true ↦ m s | false ↦ n s ]

abbrev pub finish : {S E A : Type 0} → (E → E) → S → Result E A × S → Result E A × S
finish translate s (ok a, t) = (ok a, t)
finish translate s (err e, t) = (err (translate e), s)

-- `with self.database.cursor() as cursor`: commit on success; on an exception roll back, and
-- replace what is no storage error by one.
abbrev pub transaction : {S E A : Type 0} → (E → E) → Action S E A → Action S E A
transaction translate m s = finish translate s (m s)
