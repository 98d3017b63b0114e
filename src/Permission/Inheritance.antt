-- ===== src/Permission/Inheritance.antt =====
-- `RoleHierarchy` of packages/golib/permission/permission.go. A chain of parents may be a cycle; the
-- recursion stops at a role that it has visited. It runs on fuel here.

use gpass.Prelude.{
  one_of, length, Dict, lookup, insert, ℕ, zero, suc, String, Option, none, some, map_some, List,
  [], ◌∷◌, ◌++◌, if◌then◌else◌,
}

pub record Role : Type 0 where
  pub name : String
  pub scopes : List String

-- role → role, and child → parent
pub record RoleHierarchy : Type 0 where
  pub roles : Dict Role
  pub parents : Dict String

abbrev pub define : String → List String → RoleHierarchy → RoleHierarchy
define name scopes h = record h {
  roles = insert name (record { name = name; scopes = scopes }) h.roles;
}

abbrev pub inherit : String → String → RoleHierarchy → RoleHierarchy
inherit child parent h = record h { parents = insert child parent h.parents }

-- the scopes of the role itself
unfoldable pub own_scopes : RoleHierarchy → String → List String
own_scopes h name = elim (lookup name h.roles) [ none ↦ [] | some role ↦ role.scopes ]

-- `none` is a want of fuel.
unfoldable pub resolve_recursive : ℕ → RoleHierarchy → String → List String → Option (List String)
unfolding own_scopes
resolve_recursive zero h name visited = none
resolve_recursive (suc n) h name visited =
    if one_of visited name then some [] else elim (lookup name h.parents) [
      | none ↦ some (own_scopes h name)
      | some parent ↦
          map_some (λ more. own_scopes h name ++ more)
            (resolve_recursive n h parent (name ∷ visited))
    ]

-- Each call but the last visits one more child.
unfoldable pub resolve_scopes : RoleHierarchy → String → Option (List String)
unfolding resolve_recursive
resolve_scopes h name = resolve_recursive (suc (length h.parents)) h name []
