-- ===== src/Roles/Delegation.antt =====
-- What a call of AssignRole of services/garudacorp/handler/role.go does to the roles of an entity.
use gpass.Prelude.{
  find_first, find_first-passes, Dict, lookup, insert, values, ℕ, String, ◌≡◌, refl, ◌⊎◌, inl, inr,
  true, ◌||◌, Option, none, some, arith, ◌==◌, eq_iff, Bool-cases, Option-cases, ok, Result-cases,
  reply, is_fault,
}
use gpass.Roles.Roles.{
  EntityRole, RoleStore, validate_role_assignment, assigned, assign, serves, get_user_role,
}
use gpass.Roles.Assign.{AssignRequest, new_role, AssignReply, assign_as, assign_role}
use gpass.Roles.Hierarchy.{Outranks, validate_role_assignment_iff}

-- What lies behind an assignment: an active role of the caller, in that entity, above the new one.
pub record IsAuthorised (entity_id : String) (req : AssignRequest) (s : RoleStore) : Type 0 where
  pub caller : EntityRole
  pub found : get_user_role entity_id req.caller_user_id s ≡ ok caller
  pub in_entity : caller.entity_id ≡ entity_id
  pub own : caller.user_id ≡ req.caller_user_id
  pub is_active : caller.status ≡ "ACTIVE"
  pub above : Outranks caller.role req.role

get_user_role-serves :
    (entity_id user_id : String) (s : RoleStore) (r : EntityRole)
    → get_user_role entity_id user_id s ≡ ok r
    → serves entity_id user_id r ≡ true
unfolding get_user_role
get_user_role-serves entity_id user_id s r h =
    elim (Option-cases (find_first (serves entity_id user_id) (values s))) [
      | inl e ↦ absurd (ground (arith, e))
      | inr (x, e) ↦ ground (arith, e, find_first-passes (serves entity_id user_id) (values s) x e)
    ]

-- The two ways in which a call ends: refused, with the store as it was, or done.
abbrev pub IsUnchanged : RoleStore → RoleStore × AssignReply → Type 0
IsUnchanged s out = (out.0 ≡ s) × (is_fault out.1 ≡ true)

abbrev pub IsDone :
    ℕ → String → String → AssignRequest → RoleStore → RoleStore × AssignReply → Type 0
IsDone now uuid entity_id req s out = out ≡ (
  insert uuid (assigned now uuid (new_role entity_id req)) s,
  reply 201 (uuid, req.role, "ACTIVE"),
)

assign_as_cases :
    (quoted : String → String) (now : ℕ) (uuid entity_id : String) (req : AssignRequest)
    (caller : EntityRole) (s : RoleStore)
    → IsUnchanged s (assign_as quoted now uuid entity_id req caller s)
      ⊎ (Outranks caller.role req.role
          × IsDone now uuid entity_id req s (assign_as quoted now uuid entity_id req caller s))
unfolding assign_as assign
assign_as_cases quoted now uuid entity_id req caller s =
    elim (Result-cases (validate_role_assignment caller.role req.role)) [
      | inl (_, e) ↦
          inr ((validate_role_assignment_iff caller.role req.role).0 e, rw (e, assign_as) refl)
      | inr (x, e) ↦ inl (rw (e, assign_as) refl, rw (e, assign_as) refl)
    ]

module _ {E : Type 0} (quoted : String → String) (now : ℕ) (uuid entity_id : String)
    (entities : Dict E) (s : RoleStore) where
  assign_known :
      (req : AssignRequest)
      → (caller : EntityRole) → get_user_role entity_id req.caller_user_id s ≡ ok caller
      → IsUnchanged s (assign_as quoted now uuid entity_id req caller s)
        ⊎ (IsAuthorised entity_id req s
            × IsDone now uuid entity_id req s (assign_as quoted now uuid entity_id req caller s))
  assign_known req caller found = elim (assign_as_cases quoted now uuid entity_id req caller s) [
    | inl u ↦ inl u
    | inr (above, done) ↦
        let serving = get_user_role-serves entity_id req.caller_user_id s caller found in
        inr (
          record {
            caller = caller;
            found = found;
            in_entity = ground (arith, serving, eq_iff caller.entity_id entity_id);
            own = ground (arith, serving, eq_iff caller.user_id req.caller_user_id);
            is_active = ground (arith, serving, eq_iff caller.status "ACTIVE");
            above = above;
          },
          done,
        )
  ]

  -- An assignment is either refused and changes nothing, or the caller held an active role in that
  -- entity above the one assigned, and exactly the new active role is added.
  pub assign_role_cases :
      (req : Option AssignRequest)
      → IsUnchanged s (assign_role quoted now uuid entity_id req entities s)
        ⊎ ((r : AssignRequest) × (req ≡ some r)
            × IsAuthorised entity_id r s
            × IsDone now uuid entity_id r s (assign_role quoted now uuid entity_id req entities s))
  unfolding assign_role
  assign_role_cases none = elim (Bool-cases (entity_id == "")) [
    | inl e ↦ inl (rw e refl, rw e refl)
    | inr e ↦ inl (rw e refl, rw e refl)
  ]
  assign_role_cases (some req) = elim (Bool-cases (entity_id == "")) [
    | inl e ↦ inl (rw e refl, rw e refl)
    | inr e ↦
        elim (Bool-cases (req.user_id == "" || (req.role == "" || req.caller_user_id == ""))) [
          | inl b ↦ inl (rw e (rw b refl), rw e (rw b refl))
          | inr b ↦ elim (Option-cases (lookup entity_id entities)) [
            | inl m ↦ inl (rw e (rw b (rw m refl)), rw e (rw b (rw m refl)))
            | inr (x, m) ↦ elim (Result-cases (get_user_role entity_id req.caller_user_id s)) [
              | inr (x', g) ↦ inl (rw e (rw b (rw m (rw g refl))), rw e (rw b (rw m (rw g refl))))
              | inl (caller, g) ↦ elim (assign_known req caller g) [
                | inl u ↦ inl (rw e (rw b (rw m (rw g u.0))), rw e (rw b (rw m (rw g u.1))))
                | inr (a, d) ↦ inr (req, refl, a, rw e (rw b (rw m (rw g d))))
              ]
            ]
          ]
        ]
  ]
