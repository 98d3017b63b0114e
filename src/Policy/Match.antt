-- ===== src/Policy/Match.antt =====
-- `Match` of packages/golib/policy/engine.go, on the code points of its texts.
use gpass.Prelude.{
  codes, same_codes, ℕ, suc, String, Bool, true, false, not, ◌&&◌, ◌||◌, Option, none, some, List,
  [], ◌∷◌, ◌++◌, eqb, if◌then◌else◌,
}

abbrev pub star : ℕ
star = 42

-- `strings.Contains(pattern, "*")`
unfoldable pub has_star : List ℕ → Bool
has_star [] = false
has_star (c ∷ p) = eqb c star || has_star p

-- `strings.Split(pattern, "*")`, with the part that is being read
unfoldable pub split_star : List ℕ → List ℕ → List (List ℕ)
split_star part [] = part ∷ []
split_star part (c ∷ p) = elim (eqb c star) [
  | true ↦ part ∷ split_star [] p
  | false ↦ split_star (part ++ c ∷ []) p
]

-- what follows the part in a text that begins with it
unfoldable pub strip_part : List ℕ → List ℕ → Option (List ℕ)
strip_part [] s = some s
strip_part (c ∷ part) [] = none
strip_part (c ∷ part) (d ∷ s) = let rest = strip_part part s in if eqb c d then rest else none

-- `strings.Index(remaining, part)`, with what follows the part there
unfoldable pub find_part : List ℕ → List ℕ → ℕ → Option (ℕ × List ℕ)
unfolding strip_part
find_part part [] i = elim (strip_part part []) [ none ↦ none | some rest ↦ some (i, rest) ]
find_part part (d ∷ s) i =
    let later = find_part part s (suc i) in
    elim (strip_part part (d ∷ s)) [ none ↦ later | some rest ↦ some (i, rest) ]

-- The loop over the parts, from index `i` on; `none` is a return of false.
unfoldable pub match_parts : ℕ → List (List ℕ) → List ℕ → Option (List ℕ)
unfolding find_part
match_parts i [] remaining = some remaining
match_parts i ([] ∷ parts) remaining = match_parts (suc i) parts remaining
match_parts i ((c ∷ part) ∷ parts) remaining = elim (find_part (c ∷ part) remaining 0) [
  | none ↦ none
  | some (idx, rest) ↦ elim (eqb i 0 && not (eqb idx 0)) [
    | true ↦ none
    | false ↦ match_parts (suc i) parts rest
  ]
]

-- `strings.HasSuffix(pattern, "*")`
unfoldable pub ends_with_star : List ℕ → Bool
ends_with_star [] = false
ends_with_star (c ∷ []) = eqb c star
ends_with_star (c ∷ d ∷ p) = ends_with_star (d ∷ p)

abbrev pub is_empty : List ℕ → Bool
is_empty [] = true
is_empty (_ ∷ _) = false

unfoldable pub matches_codes : List ℕ → List ℕ → Bool
unfolding has_star split_star match_parts ends_with_star
matches_codes pattern value =
    if same_codes pattern (star ∷ [])
    then true
    else if not (has_star pattern)
    then same_codes pattern value
    else elim (match_parts 0 (split_star [] pattern) value) [
      | none ↦ false
      | some remaining ↦ not (not (ends_with_star pattern) && not (is_empty remaining))
    ]

unfoldable pub matches : String → String → Bool
unfolding matches_codes
matches pattern value = matches_codes (codes pattern) (codes value)
