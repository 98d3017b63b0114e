-- ===== src/Permission/Inherited.antt =====
-- What a role of packages/golib/permission inherits: the scopes of all its ancestors, and no others.
use mathlib.Core.Path.{subst}
-- The role itself, its parent, the parent of that, and so on.
use gpass.Prelude.{
  one_of, eq_of_test, length, Dict, lookup, ℕ, zero, suc, ◌≤◌, ◌<◌, String, ◌≡◌, refl, sym, ap, ◌∙◌,
  ◌↔◌, ◌⊎◌, inl, inr, true, false, ◌||◌, none, some, List, [], ◌∷◌, ◌++◌, arith, ◌==◌, eq_iff,
  eq_refl, if◌then◌else◌, Bool-cases, Option-cases,
}
use gpass.Permission.Inheritance.{RoleHierarchy, own_scopes, resolve_recursive, resolve_scopes}

pub data Ancestor (h : RoleHierarchy) : String → String → Type 0 where
  self : {role : String} → Ancestor h role role
  up :
      {role parent ancestor : String}
      → lookup role h.parents ≡ some parent
      → Ancestor h parent ancestor
      → Ancestor h role ancestor

one_of-append :
    (xs ys : List String) (k : String) → one_of (xs ++ ys) k ≡ (one_of xs k || one_of ys k)
unfolding one_of
one_of-append [] ys k = refl
one_of-append (x ∷ xs) ys k = ground (arith, one_of-append xs ys k)

-- the children that are not visited yet
unvisited : List String → Dict String → ℕ
unvisited visited [] = 0
unvisited visited ((child, parent) ∷ m) =
    if one_of visited child then unvisited visited m else suc (unvisited visited m)

unvisited_le : (visited : List String) (m : Dict String) → unvisited visited m ≤ length m
unfolding unvisited
unvisited_le visited [] = omega arith
unvisited_le visited ((child, parent) ∷ m) = ground (arith, unvisited_le visited m)

unvisited_mono :
    (name : String) (visited : List String) (m : Dict String)
    → unvisited (name ∷ visited) m ≤ unvisited visited m
unfolding unvisited one_of
unvisited_mono name visited [] = omega arith
unvisited_mono name visited ((child, parent) ∷ m) = ground (arith, unvisited_mono name visited m)

unvisited_visit :
    (name parent : String) (visited : List String) (m : Dict String)
    → lookup name m ≡ some parent
    → one_of visited name ≡ false
    → unvisited (name ∷ visited) m < unvisited visited m
unfolding unvisited one_of lookup
unvisited_visit name parent visited [] h n = cc
unvisited_visit name parent visited ((child, held) ∷ m) h n = ground (
  arith,
  h,
  n,
  eq_iff child name,
  eq_refl name,
  unvisited_mono name visited m,
  unvisited_visit name parent visited m,
)

resolve_recursive_total :
    (n : ℕ) (h : RoleHierarchy) (name : String) (visited : List String)
    → unvisited visited h.parents < n
    → (l : List String) × (resolve_recursive n h name visited ≡ some l)
unfolding resolve_recursive
resolve_recursive_total zero h name visited f = absurd (omega (arith, f))
resolve_recursive_total (suc n) h name visited f = elim (Bool-cases (one_of visited name)) [
  | inl e ↦ ([], rw e refl)
  | inr e ↦ elim (Option-cases (lookup name h.parents)) [
    | inl p ↦ (own_scopes h name, rw e (rw p refl))
    | inr (parent, p) ↦
        let (l, found) =
          resolve_recursive_total n h parent (name ∷ visited)
            (omega (arith, f, unvisited_visit name parent visited h.parents p e)) in
        (own_scopes h name ++ l, rw e (rw p (rw found refl)))
  ]
]

-- The recursion ends for every hierarchy, also one whose parents form a cycle: the fuel that
-- ResolveScopes has here is enough.
pub resolve_scopes_total :
    (h : RoleHierarchy) (name : String) → (l : List String) × (resolve_scopes h name ≡ some l)
unfolding resolve_scopes
resolve_scopes_total h name =
    resolve_recursive_total (suc (length h.parents)) h name []
      (omega (arith, unvisited_le [] h.parents))

-- A visited role has a visited parent, but for the one whose parent is resolved now.
IsClosed : RoleHierarchy → List String → String → Type 0
IsClosed h visited name =
    (role parent : String)
    → one_of visited role ≡ true
    → lookup role h.parents ≡ some parent
    → (one_of visited parent ≡ true) ⊎ (parent ≡ name)

-- What a call returns.
resolve_recursive_cases :
    (n : ℕ) (h : RoleHierarchy) (name : String) (visited l : List String)
    → resolve_recursive (suc n) h name visited ≡ some l
    → ((one_of visited name ≡ true) × (l ≡ []))
      ⊎ (((lookup name h.parents ≡ none) × (l ≡ own_scopes h name))
          ⊎ ((parent : String) × (more : List String) × (lookup name h.parents ≡ some parent)
              × (resolve_recursive n h parent (name ∷ visited) ≡ some more)
              × (l ≡ own_scopes h name ++ more)))
unfolding resolve_recursive
resolve_recursive_cases n h name visited l f = elim (Bool-cases (one_of visited name)) [
  | inl e ↦ let found = rw e at f in inl (e, ground (arith, found))
  | inr e ↦ elim (Option-cases (lookup name h.parents)) [
    | inl p ↦ let found = rw p at (rw e at f) in inr (inl (p, ground (arith, found)))
    | inr (parent, p) ↦ elim (Option-cases (resolve_recursive n h parent (name ∷ visited))) [
      | inl g ↦ let failure = rw g at (rw p at (rw e at f)) in absurd (ground (arith, failure))
      | inr (more, g) ↦
          let found = rw g at (rw p at (rw e at f)) in
          inr (inr (parent, more, p, g, ground (arith, found)))
    ]
  ]
]

resolve_recursive_sound :
    (n : ℕ) (h : RoleHierarchy) (name : String) (visited l : List String) (scope : String)
    → resolve_recursive n h name visited ≡ some l
    → one_of l scope ≡ true
    → (ancestor : String) × Ancestor h name ancestor × (one_of (own_scopes h ancestor) scope ≡ true)
unfolding resolve_recursive one_of
resolve_recursive_sound zero h name visited l scope f g = absurd (ground (arith, f))
resolve_recursive_sound (suc n) h name visited l scope f g =
    elim (resolve_recursive_cases n h name visited l f) [
      | inl (e, nothing) ↦ let none_there = rw nothing at g in absurd (ground (arith, none_there))
      | inr (inl (p, alone)) ↦ (name, self, rw alone at g)
      | inr (inr (parent, more, p, found, whole)) ↦
          elim (Bool-cases (one_of (own_scopes h name) scope)) [
            | inl o ↦ (name, self, o)
            | inr o ↦
                let (ancestor, path, there) =
                  resolve_recursive_sound n h parent (name ∷ visited) more scope found (
                    ground (
                      arith,
                      g,
                      whole,
                      ap (λ k. one_of k scope) whole,
                      one_of-append (own_scopes h name) more scope,
                      o,
                    )) in
                (ancestor, up p path, there)
          ]
    ]

-- The ancestors of a visited role whose parents are all visited are visited.
visited-Ancestor :
    (h : RoleHierarchy) (visited : List String) (name : String) {role ancestor : String}
    → IsClosed h visited name
    → one_of visited name ≡ true
    → one_of visited role ≡ true
    → Ancestor h role ancestor
    → one_of visited ancestor ≡ true
unfolding IsClosed
visited-Ancestor h visited name closed e v self = v
visited-Ancestor h visited name closed e v (up {role} {parent} p path) =
    visited-Ancestor h visited name closed e
      (elim (closed role parent v p) [ inl w ↦ w | inr w ↦ rw w e ]) path

IsClosed-visit :
    (h : RoleHierarchy) (visited : List String) (name parent : String)
    → lookup name h.parents ≡ some parent
    → IsClosed h visited name
    → IsClosed h (name ∷ visited) parent
unfolding IsClosed one_of
IsClosed-visit h visited name parent p closed role q v l = elim (Bool-cases (role == name)) [
  | inl e ↦
      let same = eq_of_test role name e in
      inr (ground (arith, sym l ∙ ap (λ k. lookup k h.parents) same ∙ p))
  | inr e ↦ elim (closed role q (ground (arith, v, e)) l) [
    | inl w ↦ inl (ground (arith, w))
    | inr w ↦ inl (ground (arith, eq_iff q name, w))
  ]
]

Ancestor-cases :
    {h : RoleHierarchy} {role ancestor : String}
    → Ancestor h role ancestor
    → (role ≡ ancestor)
      ⊎ ((parent : String) × (lookup role h.parents ≡ some parent) × Ancestor h parent ancestor)
Ancestor-cases self = inl refl
Ancestor-cases (up {role} {parent} p path) = inr (parent, p, path)

resolve_recursive_complete :
    (n : ℕ) (h : RoleHierarchy) (name : String) (visited l : List String) {ancestor : String}
    (scope : String)
    → resolve_recursive n h name visited ≡ some l
    → IsClosed h visited name
    → Ancestor h name ancestor
    → one_of (own_scopes h ancestor) scope ≡ true
    → (one_of visited ancestor ≡ true) ⊎ (one_of l scope ≡ true)
unfolding resolve_recursive one_of
resolve_recursive_complete zero h name visited l scope f closed path o = absurd (ground (arith, f))
resolve_recursive_complete (suc n) h name visited l {ancestor} scope f closed path o =
    elim (resolve_recursive_cases n h name visited l f) [
      | inl (e, nothing) ↦ inl (visited-Ancestor h visited name closed e e path)
      | inr (inl (p, alone)) ↦ elim (Ancestor-cases path) [
        | inl same ↦ inr (rw alone (rw same o))
        | inr (parent, q, _) ↦ absurd (ground (arith, sym p ∙ q))
      ]
      | inr (inr (parent, more, p, found, whole)) ↦
          let split =
            ap (λ k. one_of k scope) whole ∙ one_of-append (own_scopes h name) more scope in
          elim (Ancestor-cases path) [
            | inl same ↦
                let mine : one_of (own_scopes h name) scope ≡ true = rw same o in
                inr (ground (arith, split, mine))
            | inr (next, q, rest) ↦
                let further : Ancestor h parent ancestor =
                  subst (λ k. Ancestor h k ancestor) (ground (arith, sym q ∙ p)) rest in
                elim (resolve_recursive_complete n h parent (name ∷ visited) more scope found
                  (IsClosed-visit h visited name parent p closed) further o) [
                    | inr m ↦ inr (ground (arith, split, m))
                    | inl v ↦ elim (Bool-cases (ancestor == name)) [
                      | inr e ↦ inl (ground (arith, v, e))
                      | inl e ↦
                          let mine : one_of (own_scopes h name) scope ≡ true =
                            rw (sym (eq_of_test ancestor name e)) o in
                          inr (ground (arith, split, mine))
                    ]
                  ]
          ]
    ]

-- What ResolveScopes returns for a role are the scopes of its ancestors, the role itself among them,
-- and no others.
pub resolve_scopes_iff :
    (h : RoleHierarchy) (name : String) (l : List String) (scope : String)
    → resolve_scopes h name ≡ some l
    → (one_of l scope ≡ true) ↔ (
        (ancestor : String) × Ancestor h name ancestor
        × (one_of (own_scopes h ancestor) scope ≡ true))
unfolding resolve_scopes IsClosed one_of
resolve_scopes_iff h name l scope f = (
  λ g. resolve_recursive_sound (suc (length h.parents)) h name [] l scope f g,
  λ (ancestor, path, o).
      elim (resolve_recursive_complete (suc (length h.parents)) h name [] l scope f
        (λ role parent v p. absurd (ground (arith, v))) path o) [
          | inl v ↦ absurd (ground (arith, v))
          | inr m ↦ m
        ],
)
