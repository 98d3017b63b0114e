-- ===== src/Permission/Tests.antt =====
-- Runs of packages/golib/permission, and its theorems at concrete inputs.

use gpass.Prelude.{
  one_of, select, any_of, lookup, insert, String, ◌≡◌, refl, ◌↔◌, true, false, some, List, [], ◌∷◌,
}
use gpass.Permission.Granted.{Covers, has_permission_iff}
use gpass.Permission.Scopes.{
  has_prefix, before_star, match_scope, Checker, scopes_of, delete, grant_scopes, revoke_subject,
  revoke_scope, has_permission, has_any, has_all,
}
use gpass.Permission.Inheritance.{RoleHierarchy, own_scopes, resolve_recursive, resolve_scopes}
use gpass.Permission.Inherited.{Ancestor, resolve_scopes_total, resolve_scopes_iff}

program : Unit {0}
unfolding has_prefix before_star match_scope scopes_of delete grant_scopes revoke_subject
    revoke_scope has_permission has_any has_all own_scopes resolve_recursive resolve_scopes lookup
    insert select any_of one_of
program = tt

abbrev checker : Checker
checker = ("ani", "admin.*" ∷ "docs.read" ∷ []) ∷ []

runs :
    (has_permission "ani" "admin.write" checker ≡ true)
    × (has_permission "ani" "admins.write" checker ≡ false)
    × (has_all "ani" ("docs.read" ∷ "docs.write" ∷ []) checker ≡ false)
    × (has_any "ani" ("docs.read" ∷ "docs.write" ∷ []) checker ≡ true)
    × (has_permission "ani" "admin.write" (revoke_scope "ani" "admin.*" checker) ≡ false)
    × (has_permission "budi" "docs.write" (grant_scopes "budi" ("docs.*" ∷ []) checker) ≡ true)
    × (has_permission "ani" "docs.read" (revoke_subject "ani" checker) ≡ false)
unfolding program
runs = (refl, refl, refl, refl, refl, refl, refl)

-- A subject with one narrow scope passes the test for "*".
star_passes : has_permission "budi" "*" (("budi", "docs.read" ∷ []) ∷ []) ≡ true
unfolding program
star_passes = refl

has_permission_iff_example :
    (has_permission "ani" "admin.write" checker ≡ true)
    ↔ ((s : String) × (one_of (scopes_of "ani" checker) s ≡ true) × Covers s "admin.write")
has_permission_iff_example = has_permission_iff "ani" "admin.write" checker

-- Two roles that inherit from each other.
abbrev cycle : RoleHierarchy
cycle = record {
  roles =
      ("editor", record { name = "editor"; scopes = "docs.write" ∷ [] })
      ∷ ("viewer", record { name = "viewer"; scopes = "docs.read" ∷ [] })
      ∷ [];
  parents = ("editor", "viewer") ∷ ("viewer", "editor") ∷ [];
}

resolve_scopes_total_example : (l : List String) × (resolve_scopes cycle "editor" ≡ some l)
resolve_scopes_total_example = resolve_scopes_total cycle "editor"

resolve_scopes_iff_example : (one_of ("docs.write" ∷ "docs.read" ∷ []) "docs.read" ≡ true) ↔ (
    (ancestor : String) × Ancestor cycle "editor" ancestor
    × (one_of (own_scopes cycle ancestor) "docs.read" ≡ true))
unfolding program
resolve_scopes_iff_example =
    resolve_scopes_iff cycle "editor" ("docs.write" ∷ "docs.read" ∷ []) "docs.read" refl
