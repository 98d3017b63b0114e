-- ===== src/Roles/Roles.antt =====
-- services/garudacorp/store/role.go: the role hierarchy and the in-memory role store. The store
-- copies every role on its way in and out. The time of a call and the fresh UUID are arguments.
use gpass.Prelude.{
  select, find_first, Dict, lookup, insert, values, ℤ, pos, negsuc, ltb_ℤ, ℕ, String, Bool, not,
  ◌&&◌, ◌||◌, Option, none, some, List, ◌==◌, if◌then◌else◌, Result, ok, err, ◌>>◌, reject, Check,
}

pub record EntityRole : Type 0 where
  pub id : String
  pub entity_id : String
  pub user_id : String
  pub role : String
  pub granted_by : String
  pub service_access : List String
  pub status : String
  pub granted_at : ℕ
  pub revoked_at : Option ℕ

abbrev pub RoleStore : Type 0
RoleStore = Dict EntityRole

pub data RoleError : Type 0 where
  role_not_found role_already_revoked cannot_assign_role : RoleError
  unknown_role : String → String → RoleError

-- `-1` for an unknown role
unfoldable pub role_level : String → ℤ
role_level role =
    if role == "REGISTERED_OFFICER"
    then pos 3
    else if role == "ADMIN"
    then pos 2
    else if role == "USER"
    then pos 1
    else negsuc 0

unfoldable pub validate_role_assignment : String → String → Check RoleError
validate_role_assignment caller target = do
  reject (ltb_ℤ (role_level caller) (pos 0) || ltb_ℤ (role_level target) (pos 0))
      (unknown_role caller target)
  reject (not (ltb_ℤ (role_level target) (role_level caller))) cannot_assign_role

abbrev pub assigned : ℕ → String → EntityRole → EntityRole
assigned now uuid r = record r { id = uuid; status = "ACTIVE"; granted_at = now }

unfoldable pub assign : ℕ → String → EntityRole → RoleStore → EntityRole × RoleStore
assign now uuid r s = (assigned now uuid r, insert uuid (assigned now uuid r) s)

unfoldable pub list_by_entity : String → RoleStore → List EntityRole
list_by_entity entity_id s = select (λ r. r.entity_id == entity_id) (values s)

unfoldable pub get_role : String → RoleStore → Result RoleError EntityRole
get_role id s = elim (lookup id s) [ none ↦ err role_not_found | some r ↦ ok r ]

abbrev pub role_revoked : ℕ → EntityRole → EntityRole
role_revoked now r = record r { status = "REVOKED"; revoked_at = some now }

unfoldable pub revoke_role : ℕ → String → RoleStore → Result RoleError RoleStore
revoke_role now id s = elim (lookup id s) [
  | none ↦ err role_not_found
  | some r ↦
      if r.status == "REVOKED"
      then err role_already_revoked
      else ok (insert id (role_revoked now r) s)
]

abbrev pub serves : String → String → EntityRole → Bool
serves entity_id user_id r =
    r.entity_id == entity_id && (r.user_id == user_id && r.status == "ACTIVE")

-- the first active role that the loop over the map meets
unfoldable pub get_user_role : String → String → RoleStore → Result RoleError EntityRole
get_user_role entity_id user_id s = elim (find_first (serves entity_id user_id) (values s)) [
  | none ↦ err role_not_found
  | some r ↦ ok r
]
