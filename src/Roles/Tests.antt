-- ===== src/Roles/Tests.antt =====
-- Runs of the role handler of services/garudacorp, and its theorems at concrete inputs.
use gpass.Prelude.{
  concat, select, find_first, Dict, lookup, insert, values, ℕ, String, ◌≡◌, refl, ◌⊎◌, none, some,
  [], ◌∷◌, ◌++◌, reply, fault,
}
use gpass.Roles.Roles.{
  EntityRole, RoleStore, role_level, validate_role_assignment, assigned, assign, list_by_entity,
  get_role, role_revoked, revoke_role, get_user_role,
}
use gpass.Roles.Assign.{AssignRequest, new_role, assign_role, list_roles, revoke_entity_role}
use gpass.Roles.Delegation.{IsAuthorised, IsUnchanged, IsDone, assign_role_cases}

program : Unit {0}
unfolding role_level validate_role_assignment assign list_by_entity get_role revoke_role
    get_user_role assign_role list_roles revoke_entity_role lookup insert values select find_first
program = tt

abbrev officer_role : EntityRole
officer_role = record {
  id = "r0";
  entity_id = "pt1";
  user_id = "ani";
  role = "REGISTERED_OFFICER";
  granted_by = "system";
  service_access = [];
  status = "ACTIVE";
  granted_at = 1;
  revoked_at = none;
}

abbrev start : RoleStore
start = ("r0", officer_role) ∷ []

abbrev companies : Dict ℕ
companies = ("pt1", 1) ∷ []

-- `%q` of a plain text
abbrev in_quotes : String → String
in_quotes s = concat "\"" (concat s "\"")

abbrev ask : AssignRequest
ask = record {
  user_id = "budi";
  role = "ADMIN";
  service_access = "signing" ∷ [];
  caller_user_id = "ani";
}

abbrev with_admin : RoleStore
with_admin = start ++ (("r1", assigned 5 "r1" (new_role "pt1" ask)) ∷ [])

-- An officer makes an administrator, who cannot make another one.
assign_runs :
    (assign_role in_quotes 5 "r1" "pt1" (some ask) companies start
      ≡ (with_admin, reply 201 ("r1", "ADMIN", "ACTIVE")))
    × ((assign_role in_quotes 6 "r2" "pt1"
          (some (record ask { user_id = "citra"; caller_user_id = "budi" }))
          companies
          with_admin).1
        ≡ fault 403 "forbidden" "caller cannot assign this role level")
    × ((assign_role in_quotes 6 "r2" "pt1"
          (some (record ask { caller_user_id = "dewi" }))
          companies
          with_admin).1
        ≡ fault 403 "forbidden" "Caller has no role in this entity")
    × ((assign_role in_quotes 6 "r2" "pt1" (some (record ask { role = "OWNER" })) companies start).1
        ≡ fault 403 "forbidden" "unknown role: caller=\"REGISTERED_OFFICER\" target=\"OWNER\"")
    × ((assign_role in_quotes 6 "r2" "pt2" (some ask) companies with_admin).1
        ≡ fault 404 "entity_not_found" "Entity not found")
unfolding program
assign_runs = (refl, refl, refl, refl, refl)

list_runs : list_roles "pt1" start ≡ reply 200 (officer_role ∷ [])
unfolding program
list_runs = refl

assign_role_cases_example :
    IsUnchanged start (assign_role in_quotes 5 "r1" "pt1" (some ask) companies start)
    ⊎ ((r : AssignRequest) × (some ask ≡ some r)
        × IsAuthorised "pt1" r start
        × IsDone 5 "r1" "pt1" r start
            (assign_role in_quotes 5 "r1" "pt1" (some ask) companies start))
assign_role_cases_example = assign_role_cases in_quotes 5 "r1" "pt1" companies start (some ask)

revoke_runs :
    revoke_entity_role 9 "pt1" "r0" start ≡ (("r0", role_revoked 9 officer_role) ∷ [], reply 200 tt)
unfolding program
revoke_runs = refl
