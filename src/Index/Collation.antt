-- ===== src/Index/Collation.antt =====
-- The collation "C": texts in the order of their characters' codes. It is one of those that the
-- theorems on pages allow.
use Prim.Native.Char.{code}
use Prim.Native.String.{String}
use text.Mathlib.TextEquality.{Char-path}
use decentralized_claims_reg.Prelude.{
  Bool, true, false, ◌≡◌, ◌≢◌, refl, ap₂, ◌⊎◌, inl, inr, arith, ltb, ◌==◌, ◌&&◌, ◌||◌, Bool-cases,
  ==→eq,
}
use decentralized_claims_reg.Index.Newest.{IsCollation}

unfoldable pub by_code : String → String → Bool
by_code String.[] String.[] = false
by_code String.[] (String.◌∷◌ d t) = true
by_code (String.◌∷◌ c s) String.[] = false
by_code (String.◌∷◌ c s) (String.◌∷◌ d t) =
    let rest = by_code s t in ltb (code c) (code d) || (code c == code d && rest)

by_code_irreflexive : (s : String) → by_code s s ≡ false
unfolding by_code
by_code_irreflexive String.[] = refl
by_code_irreflexive (String.◌∷◌ c s) = ground (arith, by_code_irreflexive s)

by_code_transitive : (s t u : String) → by_code s t ≡ true → by_code t u ≡ true → by_code s u ≡ true
unfolding by_code
by_code_transitive String.[] String.[] u h k = absurd (ground arith)
by_code_transitive String.[] (String.◌∷◌ d t) String.[] h k = absurd (ground arith)
by_code_transitive String.[] (String.◌∷◌ d t) (String.◌∷◌ e u) h k = refl
by_code_transitive (String.◌∷◌ c s) String.[] u h k = absurd (ground arith)
by_code_transitive (String.◌∷◌ c s) (String.◌∷◌ d t) String.[] h k = absurd (ground arith)
by_code_transitive (String.◌∷◌ c s) (String.◌∷◌ d t) (String.◌∷◌ e u) h k =
    elim (Bool-cases (by_code s t)) [
      | inr f ↦ ground (arith, f)
      | inl a ↦ elim (Bool-cases (by_code t u)) [
        | inr f ↦ ground (arith, f)
        | inl b ↦ ground (arith, by_code_transitive s t u a b)
      ]
    ]

by_code_total : (s t : String) → s ≢ t → (by_code s t ≡ true) ⊎ (by_code t s ≡ true)
unfolding by_code
by_code_total String.[] String.[] d = absurd (d refl)
by_code_total String.[] (String.◌∷◌ b t) d = inl refl
by_code_total (String.◌∷◌ a s) String.[] d = inr refl
by_code_total (String.◌∷◌ a s) (String.◌∷◌ b t) d = elim (Bool-cases (code a == code b)) [
  | inr f ↦ elim (Bool-cases (ltb (code a) (code b))) [
    | inl l ↦ inl (ground (arith, l))
    | inr l ↦ inr (ground (arith, f, l))
  ]
  | inl e ↦
      let same : a ≡ b = Char-path a b (==→eq (code a) (code b) e) in
      elim (by_code_total s t (λ p. d (ap₂ String.◌∷◌ same p))) [
        | inl h ↦ inl (ground (arith, e, h))
        | inr h ↦ inr (ground (arith, e, h))
      ]
]

pub by_code-IsCollation : IsCollation by_code
by_code-IsCollation = record {
  irreflexive = by_code_irreflexive;
  transitive = by_code_transitive;
  total = by_code_total;
}
