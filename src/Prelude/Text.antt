-- ===== src/Prelude/Text.antt =====
-- Texts: equality as a test, and ASCII case folding, which is what Python's `lower` and
-- PostgreSQL's `lower()` do on the hexadecimal addresses and hashes that the code folds.
use Prim.Native.Nat.{ℕ, zero, suc, ◌+◌, ◌-◌, ◌/◌, ◌%◌, compare, Ordering}
use Prim.Native.Char.{Char, code}
use Prim.Native.String.{String}
use mathlib.Core.Path.{◌≡◌, refl, ap, ap₂, ◌∙◌, subst}
use mathlib.Core.Bool.{Bool, true, false, ◌&&◌, ◌||◌, cond}
use mathlib.Core.Logic.{inl, inr}
use decentralized_claims_reg.Prelude.Cases.{Bool-cases}
use native.Mathlib.Omega.{arith}
use mathlib.Core.List.{List, [], ◌∷◌}
pub use text.Mathlib.Text.{◌==◌ as str_eq}
pub use Prim.Native.String.{◌++◌ as append}
use text.Mathlib.TextLemmas.{nil-append, cons-append}
pub use text.Mathlib.TextEquality.{eq_iff}

abbrev is_upper : Char → Bool
is_upper c =
    elim (compare 65 (code c)) [ Ordering.gt ↦ false | _ ↦ true ]
    && elim (compare (code c) 90) [ Ordering.gt ↦ false | _ ↦ true ]

letter : ℕ → Char → String → Char
letter k d String.[] = d
letter zero d (String.◌∷◌ c s) = c
letter (suc k) d (String.◌∷◌ c s) = letter k d s

abbrev alphabet : String
alphabet = "abcdefghijklmnopqrstuvwxyz"

abbrev z : Char
z = "z"

lower_char : Char → Char
unfolding letter
lower_char c = cond (is_upper c) (letter (code c - 65) z alphabet) c

unfoldable pub lower : String → String
unfolding lower_char
lower String.[] = String.[]
lower (String.◌∷◌ c s) = String.◌∷◌ (lower_char c) (lower s)

none_upper : String → Bool
none_upper String.[] = true
none_upper (String.◌∷◌ c s) = cond (is_upper c) false (none_upper s)

letter-lower :
    (k : ℕ) (d : Char) (s : String)
    → is_upper d ≡ false
    → none_upper s ≡ true
    → is_upper (letter k d s) ≡ false
unfolding letter none_upper
letter-lower k d String.[] hd h = hd
letter-lower zero d (String.◌∷◌ c s) hd h = ground arith
letter-lower (suc k) d (String.◌∷◌ c s) hd h = letter-lower k d s hd (ground arith)

alphabet-lower : none_upper alphabet ≡ true
unfolding none_upper
alphabet-lower = refl

is_upper-lower_char : (c : Char) → is_upper (lower_char c) ≡ false
unfolding lower_char
is_upper-lower_char c = elim (Bool-cases (is_upper c)) [
  | inl h ↦ rw h (letter-lower (code c - 65) z alphabet refl alphabet-lower)
  | inr h ↦ rw h h
]

lower_char_fixed : (c : Char) → is_upper c ≡ false → lower_char c ≡ c
unfolding lower_char
lower_char_fixed c h = rw h

-- Folding a folded text changes nothing.
pub lower-lower : (s : String) → lower (lower s) ≡ lower s
unfolding lower
lower-lower String.[] = refl
lower-lower (String.◌∷◌ c s) =
    ap₂ String.◌∷◌ (lower_char_fixed (lower_char c) (is_upper-lower_char c)) (lower-lower s)

pub str_eq_self : (s : String) → str_eq s s ≡ true
str_eq_self s = (eq_iff s s).1 refl

pub str_ne : (s t : String) → (s ≡ t → ⊥) → str_eq s t ≡ false
str_ne s t d = elim (Bool-cases (str_eq s t)) [ inl h ↦ absurd (d ((eq_iff s t).0 h)) | inr h ↦ h ]

pub eq_str : (s t : String) → s ≡ t → str_eq s t ≡ true
eq_str s t = (eq_iff s t).1

unfoldable pub text_length : String → ℕ
text_length String.[] = 0
text_length (String.◌∷◌ c s) = suc (text_length s)

-- `split(".")`
abbrev dot : Char
dot = "."

abbrev is_dot : Char → Bool
is_dot c = elim (compare (code c) 46) [ Ordering.eq ↦ true | _ ↦ false ]

abbrev before_first : Char → List String → List String
before_first c [] = []
before_first c (s ∷ rest) = String.◌∷◌ c s ∷ rest

unfoldable pub split_dots : String → List String
split_dots String.[] = String.[] ∷ []
split_dots (String.◌∷◌ c s) =
    let further = split_dots s in cond (is_dot c) (String.[] ∷ further) (before_first c further)

-- `character.isspace()` of ASCII
abbrev is_space : Char → Bool
is_space c =
    elim (compare (code c) 32) [ Ordering.eq ↦ true | _ ↦ false ]
    || (elim (compare 9 (code c)) [ Ordering.gt ↦ false | _ ↦ true ]
        && elim (compare (code c) 13) [ Ordering.gt ↦ false | _ ↦ true ])
    || (elim (compare 28 (code c)) [ Ordering.gt ↦ false | _ ↦ true ]
        && elim (compare (code c) 31) [ Ordering.gt ↦ false | _ ↦ true ])

unfoldable pub has_space : String → Bool
has_space String.[] = false
has_space (String.◌∷◌ c s) = is_space c || has_space s

unfoldable pub has_dot : String → Bool
has_dot String.[] = false
has_dot (String.◌∷◌ c s) = is_dot c || has_dot s

unfoldable pub repeated : ℕ → String → String
repeated zero s = String.[]
repeated (suc n) s = append s (repeated n s)

pub split_dots-append :
    (a t : String) → has_dot a ≡ false → split_dots (append a (append "." t)) ≡ a ∷ split_dots t
unfolding split_dots has_dot
split_dots-append String.[] t h =
    ap split_dots
      (nil-append (append "." t) ∙ cons-append dot "" t ∙ ap (String.◌∷◌ dot) (nil-append t))
split_dots-append (String.◌∷◌ c a) t h =
    let plain : is_dot c ≡ false = ground (arith, h) in
    let rest : has_dot a ≡ false = ground (arith, h) in
    ap split_dots (cons-append c a (append "." t))
    ∙ rw plain (ap (before_first c) (split_dots-append a t rest))

pub split_dots-last : (a : String) → has_dot a ≡ false → split_dots a ≡ a ∷ []
unfolding split_dots has_dot
split_dots-last String.[] h = refl
split_dots-last (String.◌∷◌ c a) h =
    let plain : is_dot c ≡ false = ground (arith, h) in
    let rest : has_dot a ≡ false = ground (arith, h) in
    rw plain (ap (before_first c) (split_dots-last a rest))

lower_test : lower "0xAbC9f" ≡ "0xabc9f"
unfolding lower
lower_test = refl

abbrev numerals : String
numerals = "0123456789"

abbrev nought : Char
nought = "0"

decimal_from : ℕ → ℕ → String → String
unfolding letter
decimal_from zero n tail = tail
decimal_from (suc k) n tail = elim (compare n 10) [
  | Ordering.lt ↦ String.◌∷◌ (letter n nought numerals) tail
  | _ ↦ decimal_from k (n / 10) (String.◌∷◌ (letter (n % 10) nought numerals) tail)
]

-- `str(n)`; a number has no more digits than `n + 1`.
unfoldable pub decimal : ℕ → String
unfolding decimal_from
decimal n = decimal_from (suc n) n String.[]

decimal_test : append (decimal 0) (decimal 1207) ≡ "01207"
unfolding decimal
decimal_test = refl

-- `s.startswith(p)`
unfoldable pub starts_with : String → String → Bool
starts_with String.[] s = true
starts_with (String.◌∷◌ c p) String.[] = false
starts_with (String.◌∷◌ c p) (String.◌∷◌ d s) =
    elim (compare (code c) (code d)) [ Ordering.eq ↦ true | _ ↦ false ] && starts_with p s

-- `p in s`
unfoldable pub contains : String → String → Bool
unfolding starts_with
contains p String.[] = starts_with p String.[]
contains p (String.◌∷◌ c s) =
    let further = contains p s in cond (starts_with p (String.◌∷◌ c s)) true further

contains_test : contains "does not" "it does not match" ≡ true
unfolding contains
contains_test = refl

pub append_nonempty : (c : Char) (s t : String) → str_eq (append (String.◌∷◌ c s) t) "" ≡ false
append_nonempty c s t =
    str_ne (append (String.◌∷◌ c s) t) "" (λ e. absurd (cc (cons-append c s t, e)))

pub starts_with-append : (p s : String) → starts_with p (append p s) ≡ true
unfolding starts_with
starts_with-append String.[] s = refl
starts_with-append (String.◌∷◌ c p) s =
    ap (starts_with (String.◌∷◌ c p)) (cons-append c p s) ∙ ground (arith, starts_with-append p s)

pub text_length-append : (s t : String) → text_length (append s t) ≡ text_length s + text_length t
unfolding text_length
text_length-append String.[] t = ap text_length (nil-append t) ∙ omega arith
text_length-append (String.◌∷◌ c s) t =
    ap text_length (cons-append c s t) ∙ omega (arith, text_length-append s t)

starts_with-contains : (p q s : String) → starts_with (append p q) s ≡ true → contains q s ≡ true
unfolding contains starts_with
starts_with-contains String.[] q String.[] h =
    subst (λ x. starts_with x String.[] ≡ true) (nil-append q) h
starts_with-contains String.[] q (String.◌∷◌ c s) h =
    rw (subst (λ x. starts_with x (String.◌∷◌ c s) ≡ true) (nil-append q) h) refl
starts_with-contains (String.◌∷◌ c p) q String.[] h =
    let longer : starts_with (String.◌∷◌ c (append p q)) String.[] ≡ true =
      subst (λ x. starts_with x String.[] ≡ true) (cons-append c p q) h in
    absurd (ground arith)
starts_with-contains (String.◌∷◌ c p) q (String.◌∷◌ d s) h =
    let longer : starts_with (String.◌∷◌ c (append p q)) (String.◌∷◌ d s) ≡ true =
      subst (λ x. starts_with x (String.◌∷◌ d s) ≡ true) (cons-append c p q) h in
    let below : contains q s ≡ true = starts_with-contains p q s (ground arith) in
    elim (Bool-cases (starts_with q (String.◌∷◌ d s))) [ inl t ↦ rw t refl | inr t ↦ rw t below ]

-- A text that contains a longer one contains its end.
pub contains_part : (p q s : String) → contains (append p q) s ≡ true → contains q s ≡ true
unfolding contains
contains_part p q String.[] h = starts_with-contains p q String.[] h
contains_part p q (String.◌∷◌ c s) h =
    elim (Bool-cases (starts_with (append p q) (String.◌∷◌ c s))) [
      | inl t ↦ starts_with-contains p q (String.◌∷◌ c s) t
      | inr t ↦ elim (Bool-cases (starts_with q (String.◌∷◌ c s))) [
        | inl u ↦ rw u refl
        | inr u ↦ rw u (contains_part p q s (ground arith))
      ]
    ]

-- `s[:n]`
unfoldable pub prefix : ℕ → String → String
prefix zero s = ""
prefix (suc n) String.[] = ""
prefix (suc n) (String.◌∷◌ c s) = String.◌∷◌ c (prefix n s)

after_prefix : String → String → String
after_prefix String.[] s = s
after_prefix (String.◌∷◌ c p) String.[] = ""
after_prefix (String.◌∷◌ c p) (String.◌∷◌ d s) = after_prefix p s

-- `s.removeprefix(p)`
unfoldable pub remove_prefix : String → String → String
unfolding starts_with after_prefix
remove_prefix p s = cond (starts_with p s) (after_prefix p s) s

remove_prefix_test : append (remove_prefix "0x" "0x0xab") (remove_prefix "0x" "x") ≡ "0xabx"
unfolding remove_prefix
remove_prefix_test = refl
