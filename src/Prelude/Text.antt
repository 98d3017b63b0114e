-- ===== src/Prelude/Text.antt =====
-- Texts: Go strings are compared, measured in runes and searched for single characters.
-- A text here is a sequence of code points, so a Go string that is not valid UTF-8 has no model.
use Prim.Native.Nat.{ℕ, ◌≤◌}
use Prim.Native.Char.{code}
use Prim.Native.String
use Prim.Native.String.{String}
use mathlib.Core.Bool.{Bool, true, false, not, ◌&&◌, ◌||◌}
use mathlib.Core.List.{List, [], ◌∷◌, ◌++◌}
use text.Mathlib.Text.{◌==◌}
use text.Mathlib.TextEquality.{eq_iff}
use text.Mathlib.TextLemmas.{cons-append, nil-append}
use mathlib.Core.Path.{◌≡◌, refl, sym, ap, ◌∙◌}
use mathlib.Core.Logic.{◌≢◌, inl, inr}
use native.Mathlib.Omega.{arith}
use gpass.Prelude.Tests.{eqb, Bool-cases}

-- the code points of a text, for the code that works on single characters
abbrev pub codes : String → List ℕ
codes String.[] = []
codes (String.◌∷◌ rune rest) = code rune ∷ codes rest

abbrev pub same_codes : List ℕ → List ℕ → Bool
same_codes [] [] = true
same_codes (a ∷ l) (b ∷ m) = eqb a b && same_codes l m
same_codes _ _ = false

pub same_codes-eq : (p s : List ℕ) → same_codes p s ≡ true → p ≡ s
same_codes-eq [] [] h = refl
same_codes-eq [] (d ∷ s) h = absurd (ground (arith, h))
same_codes-eq (c ∷ p) [] h = absurd (ground (arith, h))
same_codes-eq (c ∷ p) (d ∷ s) h = ground (arith, h, same_codes-eq p s)

-- `utf8.RuneCountInString`
abbrev pub rune_count : String → ℕ
rune_count = String.count

-- `s + t`
abbrev pub concat : String → String → String
concat s t = String.◌++◌ s t

-- `m[k]` for a `map[string]bool` whose values are all `true`: membership in the closed set
unfoldable pub one_of : List String → String → Bool
one_of [] k = false
one_of (a ∷ l) k = k == a || one_of l k

abbrev code_in : List ℕ → ℕ → Bool
code_in [] c = false
code_in (a ∷ l) c = eqb a c || code_in l c

-- `strings.ContainsAny(s, chars)`, with the characters given by their codes
unfoldable pub contains_any : List ℕ → String → Bool
contains_any chars String.[] = false
contains_any chars (String.◌∷◌ c s) = code_in chars (code c) || contains_any chars s

-- at most `max` runes and no null byte
pub record IsBounded (v : String) (max : ℕ) : Type 0 where
  pub short : rune_count v ≤ max
  pub clean : contains_any (0 ∷ []) v ≡ false

pub record IsRequired (v : String) (max : ℕ) : Type 0 where
  pub present : (v == "") ≡ false
  pub bound : IsBounded v max

-- Two texts that the test tells apart differ.
pub ne_of_test : (s t : String) → (s == t) ≡ false → s ≢ t
ne_of_test s t h e = ground (arith, eq_iff s t)

pub eq_of_test : (s t : String) → (s == t) ≡ true → s ≡ t
eq_of_test s t h = (eq_iff s t).0 h

codes-concat : (s t : String) → codes (concat s t) ≡ codes s ++ codes t
codes-concat String.[] t = ap codes (nil-append t)
codes-concat (String.◌∷◌ c s) t =
    ap codes (cons-append c s t) ∙ ap (λ l. code c ∷ l) (codes-concat s t)

-- The lists differ at a place that both have.
abbrev differ : List ℕ → List ℕ → Bool
differ (a ∷ l) (b ∷ m) = not (eqb a b) || differ l m
differ _ _ = false

differ-append : (l m x y : List ℕ) → differ l m ≡ true → l ++ x ≡ m ++ y → false ≡ true
differ-append [] m x y d e = d
differ-append (a ∷ l) [] x y d e = d
differ-append (a ∷ l) (b ∷ m) x y d e = ground (arith, d, e, differ-append l m x y)

-- Texts with different beginnings are different.
pub concat-apart :
    (p q x y : String) → differ (codes p) (codes q) ≡ true → (concat p x == concat q y) ≡ false
concat-apart p q x y d = elim (Bool-cases (concat p x == concat q y)) [
  | inr e ↦ e
  | inl e ↦
      let same = ap codes ((eq_iff (concat p x) (concat q y)).0 e) in
      absurd (
        ground (
          arith,
          differ-append (codes p) (codes q) (codes x) (codes y) d
              (sym (codes-concat p x) ∙ same ∙ codes-concat q y),
        ))
]

append-cancel : (l x y : List ℕ) → l ++ x ≡ l ++ y → x ≡ y
append-cancel [] x y e = e
append-cancel (a ∷ l) x y e = append-cancel l x y (ground (arith, e))

-- Texts with the same beginning differ where their ends do.
pub concat-ne : (p x y : String) → codes x ≢ codes y → codes (concat p x) ≢ codes (concat p y)
concat-ne p x y d e =
    d (append-cancel (codes p) (codes x) (codes y) (sym (codes-concat p x) ∙ e ∙ codes-concat p y))

pub test_of_codes : (x y : String) → codes x ≢ codes y → (x == y) ≡ false
test_of_codes x y d = elim (Bool-cases (x == y)) [
  | inr e ↦ e
  | inl e ↦ absurd (d (ap codes ((eq_iff x y).0 e)))
]
