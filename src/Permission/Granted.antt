-- ===== src/Permission/Granted.antt =====
-- What the `Checker` of packages/golib/permission lets a subject do.
use gpass.Prelude.{
  codes, same_codes, one_of, eq_of_test, same_codes-eq, any_of, ℕ, String, ◌≡◌, refl, sym, ap, ◌∙◌,
  ◌↔◌, inl, inr, Bool, true, false, ◌||◌, some, List, [], ◌∷◌, ◌++◌, arith, ◌==◌, eq_iff, eq_refl,
  Bool-cases, Option-cases,
}
use gpass.Permission.Scopes.{
  has_prefix, before_star, match_scope, Checker, scopes_of, has_permission,
}

-- The scope covers the one that is asked for.
pub data Covers (s required : String) : Type 0 where
  every : s ≡ "*" → Covers s required
  -- Who asks for "*" asks for nothing in particular.
  any_scope : required ≡ "*" → Covers s required
  equal : s ≡ required → Covers s required
  -- "admin.*" covers "admin.read"
  below :
      (p rest : List ℕ)
      → codes s ≡ p ++ (46 ∷ 42 ∷ [])
      → codes required ≡ (p ++ (46 ∷ [])) ++ rest
      → Covers s required

has_prefix-append : (p rest : List ℕ) → has_prefix p (p ++ rest) ≡ true
unfolding has_prefix
has_prefix-append [] rest = refl
has_prefix-append (c ∷ p) rest = ground (arith, has_prefix-append p rest)

has_prefix-cut : (p s : List ℕ) → has_prefix p s ≡ true → (rest : List ℕ) × (s ≡ p ++ rest)
unfolding has_prefix
has_prefix-cut [] s h = (s, refl)
has_prefix-cut (c ∷ p) [] h = absurd (ground (arith, h))
has_prefix-cut (c ∷ p) (d ∷ s) h =
    let (rest, cut) = has_prefix-cut p s (ground (arith, h)) in (rest, ground (arith, h, cut))

before_star-cut :
    (s q : List ℕ)
    → before_star s ≡ some q
    → (p : List ℕ) × (s ≡ p ++ (46 ∷ 42 ∷ [])) × (q ≡ p ++ (46 ∷ []))
unfolding before_star
before_star-cut [] q h = absurd (ground (arith, h))
before_star-cut (c ∷ s) q h = elim (Bool-cases (same_codes (c ∷ s) (46 ∷ 42 ∷ []))) [
  | inl e ↦
      let found = rw (e, before_star) at h in
      ([], same_codes-eq (c ∷ s) (46 ∷ 42 ∷ []) e, ground (arith, found))
  | inr e ↦ elim (Option-cases (before_star s)) [
    | inl f ↦ let failure = rw f at (rw (e, before_star) at h) in absurd (ground (arith, failure))
    | inr (r, f) ↦
        let found = rw f at (rw (e, before_star) at h) in
        let (p, cut, whole) = before_star-cut s r f in
        (c ∷ p, ap (λ l. c ∷ l) cut, ground (arith, found, ap (λ l. c ∷ l) whole))
  ]
]

longer : (c : ℕ) (p : List ℕ) → same_codes (c ∷ (p ++ (46 ∷ 42 ∷ []))) (46 ∷ 42 ∷ []) ≡ false
longer c [] = ground arith
longer c (d ∷ []) = ground arith
longer c (d ∷ e ∷ p) = ground arith

before_star-append : (p : List ℕ) → before_star (p ++ (46 ∷ 42 ∷ [])) ≡ some (p ++ (46 ∷ []))
unfolding before_star
before_star-append [] = refl
before_star-append (c ∷ p) = rw (longer c p, before_star) (rw (before_star-append p) refl)

match_scope-Covers : (s required : String) → match_scope s required ≡ true → Covers s required
unfolding match_scope
match_scope-Covers s required h = elim (Bool-cases (s == "*")) [
  | inl e ↦ every (eq_of_test s "*" e)
  | inr e ↦ elim (Bool-cases (required == "*")) [
    | inl f ↦ any_scope (eq_of_test required "*" f)
    | inr f ↦ elim (Bool-cases (s == required)) [
      | inl g ↦ equal (eq_of_test s required g)
      | inr g ↦ elim (Option-cases (before_star (codes s))) [
        | inl b ↦
            let failure = rw b at (rw g at (rw f at (rw (e, match_scope) at h))) in
            absurd (ground (arith, failure))
        | inr (q, b) ↦
            let found = rw b at (rw g at (rw f at (rw (e, match_scope) at h))) in
            let (p, cut, whole) = before_star-cut (codes s) q b in
            let (rest, more) = has_prefix-cut q (codes required) found in
            below p rest cut (more ∙ ap (λ l. l ++ rest) whole)
      ]
    ]
  ]
]

match_scope_of_Covers : (s required : String) → Covers s required → match_scope s required ≡ true
unfolding match_scope
match_scope_of_Covers s required (every e) = ground (arith, eq_iff s "*", e)
match_scope_of_Covers s required (any_scope e) = ground (arith, eq_iff required "*", e)
match_scope_of_Covers s required (equal e) = ground (arith, eq_iff s required, e)
match_scope_of_Covers s required (below p rest cut more) =
    let tested = ap before_star cut ∙ before_star-append p in
    let matched : has_prefix (p ++ (46 ∷ [])) (codes required) ≡ true =
      rw more (has_prefix-append (p ++ (46 ∷ [])) rest) in
    elim (Bool-cases (s == "*" || required == "*")) [
      | inl e ↦ rw e refl
      | inr e ↦ elim (Bool-cases (s == required)) [
        | inl f ↦ rw e (rw f refl)
        | inr f ↦ rw e (rw f (rw tested matched))
      ]
    ]

any_of-held :
    (p : String → Bool) (xs : List String)
    → any_of p xs ≡ true
    → (s : String) × (one_of xs s ≡ true) × (p s ≡ true)
unfolding any_of one_of
any_of-held p [] h = absurd (ground (arith, h))
any_of-held p (x ∷ xs) h = elim (Bool-cases (p x)) [
  | inl e ↦ (x, ground (arith, eq_refl x), e)
  | inr e ↦
      let (s, held, passed) = any_of-held p xs (ground (arith, h, e)) in
      (s, ground (arith, held), passed)
]

any_of_of_held :
    (p : String → Bool) (xs : List String) (s : String)
    → one_of xs s ≡ true
    → p s ≡ true
    → any_of p xs ≡ true
unfolding any_of one_of
any_of_of_held p [] s h e = absurd (ground (arith, h))
any_of_of_held p (x ∷ xs) s h e = elim (Bool-cases (s == x)) [
  | inl f ↦ let here : p x ≡ true = rw (sym (eq_of_test s x f)) e in ground (arith, here)
  | inr f ↦ let later = any_of_of_held p xs s (ground (arith, h, f)) e in ground (arith, later)
]

-- HasPermission holds exactly if one of the scopes granted to the subject covers the one required: it
-- is "*" or the same scope, or it ends with ".*" and the required scope goes on after the dot; "*" is
-- covered by any scope.
pub has_permission_iff :
    (subject required : String) (c : Checker)
    → (has_permission subject required c ≡ true)
      ↔ ((s : String) × (one_of (scopes_of subject c) s ≡ true) × Covers s required)
unfolding has_permission
has_permission_iff subject required c = (
  λ h.
      let (s, held, passed) = any_of-held (λ s. match_scope s required) (scopes_of subject c) h in
      (s, held, match_scope-Covers s required passed),
  λ (s, held, covers).
      any_of_of_held (λ s. match_scope s required) (scopes_of subject c) s held
        (match_scope_of_Covers s required covers),
)
