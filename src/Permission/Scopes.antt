-- ===== src/Permission/Scopes.antt =====
-- Scopes and the `Checker` of packages/golib/permission/permission.go.
use gpass.Prelude.{
  codes, same_codes, select, any_of, Dict, lookup, insert, ℕ, String, Bool, true, false, not, ◌&&◌,
  ◌||◌, Option, none, some, map_some, List, [], ◌∷◌, ◌++◌, map, ◌==◌, eqb, if◌then◌else◌,
}

-- `strings.HasPrefix`, on code points
unfoldable pub has_prefix : List ℕ → List ℕ → Bool
has_prefix [] s = true
has_prefix (c ∷ p) [] = false
has_prefix (c ∷ p) (d ∷ s) = eqb c d && has_prefix p s

-- of a scope that ends with ".*", what stands before the star
unfoldable pub before_star : List ℕ → Option (List ℕ)
before_star [] = none
before_star (c ∷ s) =
    let rest = before_star s in
    if same_codes (c ∷ s) (46 ∷ 42 ∷ []) then some (46 ∷ []) else map_some (λ p. c ∷ p) rest

unfoldable pub match_scope : String → String → Bool
unfolding before_star has_prefix
match_scope s required =
    if s == "*" || required == "*"
    then true
    else if s == required
    then true
    else elim (before_star (codes s)) [
      | none ↦ false
      | some prefix ↦ has_prefix prefix (codes required)
    ]

-- subject → scopes
abbrev pub Checker : Type 0
Checker = Dict (List String)

-- `c.grants[subject]`, nil if it is not there
unfoldable pub scopes_of : String → Checker → List String
scopes_of subject c = elim (lookup subject c) [ none ↦ [] | some scopes ↦ scopes ]

-- `delete(m, k)`
unfoldable pub delete {ℓ} : {V : Type ℓ} → String → Dict V → Dict V
delete key [] = []
delete key ((name, held) ∷ rest) =
    if name == key then delete key rest else (name, held) ∷ delete key rest

unfoldable pub grant_scopes : String → List String → Checker → Checker
unfolding scopes_of
grant_scopes subject scopes c = insert subject (scopes_of subject c ++ scopes) c

unfoldable pub revoke_subject : String → Checker → Checker
unfolding delete
revoke_subject subject c = delete subject c

unfoldable pub revoke_scope : String → String → Checker → Checker
unfolding scopes_of
revoke_scope subject scope c =
    insert subject (select (λ s. not (s == scope)) (scopes_of subject c)) c

unfoldable pub has_permission : String → String → Checker → Bool
unfolding scopes_of
has_permission subject required c = any_of (λ s. match_scope s required) (scopes_of subject c)

unfoldable pub has_any : String → List String → Checker → Bool
unfolding has_permission
has_any subject required c = any_of (λ r. has_permission subject r c) required

unfoldable pub has_all : String → List String → Checker → Bool
unfolding has_permission
has_all subject [] c = true
has_all subject (r ∷ rs) c =
    if not (has_permission subject r c) then false else has_all subject rs c

abbrev pub subjects : Checker → List String
subjects c = map (λ entry. entry.0) c
