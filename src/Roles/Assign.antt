-- ===== src/Roles/Assign.antt =====
-- services/garudacorp/handler/role.go: assigning, listing and revoking a role. A request is its
-- decoded body; `none` is a body that is no JSON. Of the entity store only the presence of the
-- entity is used, so its entities are of any type.
use gpass.Prelude.{
  concat, Dict, lookup, ℕ, String, not, ◌||◌, Option, none, some, List, ◌==◌, if◌then◌else◌, ok,
  err, Reply, reply, fault,
}
use gpass.Roles.Roles.{
  EntityRole, RoleStore, RoleError, role_not_found, role_already_revoked, cannot_assign_role,
  unknown_role, validate_role_assignment, assign, list_by_entity, get_role, revoke_role,
  get_user_role,
}

pub record AssignRequest : Type 0 where
  pub user_id : String
  pub role : String
  pub service_access : List String
  pub caller_user_id : String

abbrev pub new_role : String → AssignRequest → EntityRole
new_role entity_id req = record {
  id = "";
  entity_id = entity_id;
  user_id = req.user_id;
  role = req.role;
  granted_by = req.caller_user_id;
  service_access = req.service_access;
  status = "";
  granted_at = 0;
  revoked_at = none;
}

-- The verb `%q` of the package fmt is a parameter.
abbrev pub unknown_role_text : (String → String) → String → String → String
unknown_role_text quoted caller target =
    concat "unknown role: caller=" (concat (quoted caller) (concat " target=" (quoted target)))

-- `ErrCannotAssignRole` and the unknown role reach the caller as the error's own text.
abbrev pub role_error_text : (String → String) → RoleError → String
role_error_text quoted role_not_found = "role not found"
role_error_text quoted role_already_revoked = "role is already revoked"
role_error_text quoted cannot_assign_role = "caller cannot assign this role level"
role_error_text quoted (unknown_role caller target) = unknown_role_text quoted caller target

-- The reply carries the role's id, its level and its status.
abbrev pub AssignReply : Type 0
AssignReply = Reply (String × String × String)

-- the last part of `AssignRole`, once the caller's role is known
unfoldable pub assign_as :
    (String → String)
    → ℕ
    → String
    → String
    → AssignRequest
    → EntityRole
    → RoleStore
    → RoleStore × AssignReply
assign_as quoted now uuid entity_id req caller s =
    elim (validate_role_assignment caller.role req.role) [
      | err e ↦ (s, fault 403 "forbidden" (role_error_text quoted e))
      | ok _ ↦
          let (r, s') = assign now uuid (new_role entity_id req) s in
          (s', reply 201 (r.id, r.role, r.status))
    ]

module _ {E : Type 0} where
  unfoldable pub assign_role :
      (String → String)
      → ℕ
      → String
      → String
      → Option AssignRequest
      → Dict E
      → RoleStore
      → RoleStore × AssignReply
  unfolding assign_as
  assign_role quoted now uuid entity_id none entities s =
      if entity_id == ""
      then (s, fault 400 "invalid_request" "entity_id is required")
      else (s, fault 400 "invalid_request" "Invalid JSON body")
  assign_role quoted now uuid entity_id (some req) entities s =
      if entity_id == ""
      then (s, fault 400 "invalid_request" "entity_id is required")
      else if req.user_id == "" || (req.role == "" || req.caller_user_id == "")
      then (s, fault 400 "invalid_request" "user_id, role, and caller_user_id are required")
      else elim (lookup entity_id entities) [
        | none ↦ (s, fault 404 "entity_not_found" "Entity not found")
        | some _ ↦ elim (get_user_role entity_id req.caller_user_id s) [
          | err _ ↦ (s, fault 403 "forbidden" "Caller has no role in this entity")
          | ok caller ↦ assign_as quoted now uuid entity_id req caller s
        ]
      ]

unfoldable pub list_roles : String → RoleStore → Reply (List EntityRole)
list_roles entity_id s =
    if entity_id == ""
    then fault 400 "invalid_request" "entity_id is required"
    else reply 200 (list_by_entity entity_id s)

unfoldable pub revoke_entity_role : ℕ → String → String → RoleStore → RoleStore × Reply (Unit {0})
revoke_entity_role now entity_id role_id s =
    if entity_id == "" || role_id == ""
    then (s, fault 400 "invalid_request" "entity_id and role_id are required")
    else elim (get_role role_id s) [
      | err _ ↦ (s, fault 404 "role_not_found" "Role not found")
      | ok r ↦
          if not (r.entity_id == entity_id)
          then (s, fault 404 "role_not_found" "Role not found in this entity")
          else elim (revoke_role now role_id s) [
            | err role_already_revoked ↦ (s, fault 409 "already_revoked" "Role is already revoked")
            | err _ ↦ (s, fault 500 "internal_error" "Failed to revoke role")
            | ok s' ↦ (s', reply 200 tt)
          ]
    ]
