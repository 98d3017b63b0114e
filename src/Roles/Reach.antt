-- ===== src/Roles/Reach.antt =====
-- The roles of services/garudacorp over any sequence of assignments and revocations made through
-- handler/role.go.
use gpass.Prelude.{
  ne_of_test, eq_of_test, Dict, lookup, insert, lookup-insert_cases, ℕ, String, ◌≡◌, refl, sym, ap,
  ◌∙◌, inl, inr, true, false, ◌||◌, Option, none, some, ◌==◌, if◌then◌else◌, Bool-cases,
  Option-cases, ok, err, Reply, reply, is_fault,
}
use gpass.Roles.Roles.{
  EntityRole, RoleStore, role_already_revoked, assigned, get_role, role_revoked, revoke_role,
}
use gpass.Roles.Assign.{AssignRequest, new_role, AssignReply, assign_role, revoke_entity_role}
use gpass.Roles.Hierarchy.{Outranks, officer_admin, officer_user, admin_user}
use gpass.Roles.Delegation.{IsAuthorised, assign_role_cases}

-- One call of the handler that may change the store. The UUID of a new role is fresh.
pub data Step {E : Type 0} (quoted : String → String) (entities : Dict E) (s : RoleStore)
    : RoleStore → Type 0 where
  assigning :
      (now : ℕ) (uuid entity_id : String) (req : Option AssignRequest)
      → lookup uuid s ≡ none
      → Step quoted entities s (assign_role quoted now uuid entity_id req entities s).0
  revoking :
      (now : ℕ) (entity_id role_id : String)
      → Step quoted entities s (revoke_entity_role now entity_id role_id s).0

pub data Reach {E : Type 0} (quoted : String → String) (entities : Dict E) (s : RoleStore)
    : RoleStore → Type 0 where
  here : Reach quoted entities s s
  next :
      {t u : RoleStore}
      → Reach quoted entities s t
      → Step quoted entities t u
      → Reach quoted entities s u

-- `RevokeRole` changes the store only by revoking the named role, which it finds unrevoked in the
-- entity.
pub data RevokeOutcome (now : ℕ) (entity_id id : String) (s : RoleStore)
    (out : RoleStore × Reply (Unit {0})) : Type 0 where
  refused : out.0 ≡ s → is_fault out.1 ≡ true → RevokeOutcome now entity_id id s out
  done :
      (r : EntityRole)
      → lookup id s ≡ some r
      → r.entity_id ≡ entity_id
      → (r.status == "REVOKED") ≡ false
      → out ≡ (insert id (role_revoked now r) s, reply 200 tt)
      → RevokeOutcome now entity_id id s out

revoke_role_held :
    (now : ℕ) (id : String) (s : RoleStore) (r : EntityRole)
    → lookup id s ≡ some r
    → revoke_role now id s ≡ (
        if r.status == "REVOKED"
        then err role_already_revoked
        else ok (insert id (role_revoked now r) s))
unfolding revoke_role
revoke_role_held now id s r m = rw (m, revoke_role) refl

pub revoke_cases :
    (now : ℕ) (entity_id id : String) (s : RoleStore)
    → RevokeOutcome now entity_id id s (revoke_entity_role now entity_id id s)
unfolding revoke_entity_role get_role
revoke_cases now entity_id id s = elim (Bool-cases (entity_id == "" || id == "")) [
  | inl e ↦ refused (rw e refl) (rw e refl)
  | inr e ↦ elim (Option-cases (lookup id s)) [
    | inl m ↦ refused (rw e (rw (m, get_role) refl)) (rw e (rw (m, get_role) refl))
    | inr (r, m) ↦ elim (Bool-cases (r.entity_id == entity_id)) [
      | inr o ↦ refused (rw e (rw (m, get_role) (rw o refl))) (rw e (rw (m, get_role) (rw o refl)))
      | inl o ↦ elim (Bool-cases (r.status == "REVOKED")) [
        | inl d ↦
            let e' = revoke_role_held now id s r m in
            refused (rw e (rw (m, get_role) (rw o (rw e' (rw d refl)))))
              (rw e (rw (m, get_role) (rw o (rw e' (rw d refl)))))
        | inr d ↦
            let e' = revoke_role_held now id s r m in
            done r m (eq_of_test _ _ o) d (rw e (rw (m, get_role) (rw o (rw e' (rw d refl)))))
      ]
    ]
  ]
]

-- The store holds, under the id, an officer's role of the user in the entity.
pub record IsOfficer (id entity_id user_id : String) (s : RoleStore) : Type 0 where
  pub held_role : EntityRole
  pub held : lookup id s ≡ some held_role
  pub level : held_role.role ≡ "REGISTERED_OFFICER"
  pub in_entity : held_role.entity_id ≡ entity_id
  pub own : held_role.user_id ≡ user_id

Outranks-not_officer : (c t : String) → Outranks c t → t ≡ "REGISTERED_OFFICER" → ⊥
Outranks-not_officer c t (officer_admin p q) e =
    ne_of_test "ADMIN" "REGISTERED_OFFICER" refl (sym q ∙ e)
Outranks-not_officer c t (officer_user p q) e =
    ne_of_test "USER" "REGISTERED_OFFICER" refl (sym q ∙ e)
Outranks-not_officer c t (admin_user p q) e =
    ne_of_test "USER" "REGISTERED_OFFICER" refl (sym q ∙ e)

module _ (id entity_id user_id : String) where
  assigned-IsOfficer :
      (now : ℕ) (uuid e : String) (req : AssignRequest) (s : RoleStore)
      → IsAuthorised e req s
      → IsOfficer id entity_id user_id (insert uuid (assigned now uuid (new_role e req)) s)
      → IsOfficer id entity_id user_id s
  assigned-IsOfficer now uuid e req s a o =
      elim (lookup-insert_cases uuid id (assigned now uuid (new_role e req)) o.held_role s o.held) [
        | inl (_, same) ↦ absurd (
            Outranks-not_officer a.caller.role req.role a.above
              (ap (λ (r : EntityRole). r.role) same ∙ o.level))
        | inr (_, old) ↦ record {
          held_role = o.held_role;
          held = old;
          level = o.level;
          in_entity = o.in_entity;
          own = o.own;
        }
      ]

  revoked-IsOfficer :
      (now : ℕ) (k : String) (r : EntityRole) (s : RoleStore)
      → lookup k s ≡ some r
      → IsOfficer id entity_id user_id (insert k (role_revoked now r) s)
      → IsOfficer id entity_id user_id s
  revoked-IsOfficer now k r s m o =
      elim (lookup-insert_cases k id (role_revoked now r) o.held_role s o.held) [
        | inl (same_key, same) ↦ record {
          held_role = r;
          held = rw (← same_key) m;
          level = ap (λ (x : EntityRole). x.role) same ∙ o.level;
          in_entity = ap (λ (x : EntityRole). x.entity_id) same ∙ o.in_entity;
          own = ap (λ (x : EntityRole). x.user_id) same ∙ o.own;
        }
        | inr (_, old) ↦ record {
          held_role = o.held_role;
          held = old;
          level = o.level;
          in_entity = o.in_entity;
          own = o.own;
        }
      ]

  module _ {E : Type 0} {quoted : String → String} {entities : Dict E} where
    pub Step-IsOfficer :
        {s t : RoleStore}
        → Step quoted entities s t
        → IsOfficer id entity_id user_id t
        → IsOfficer id entity_id user_id s
    Step-IsOfficer {s} (assigning now uuid e req fresh) o =
        elim (assign_role_cases quoted now uuid e entities s req) [
          | inl u ↦ rw u.0 at o
          | inr (r, _, a, d) ↦
              assigned-IsOfficer now uuid e r s a
                (rw (ap (λ (x : RoleStore × AssignReply). x.0) d) at o)
        ]
    Step-IsOfficer {s} (revoking now e k) o = elim (revoke_cases now e k s) [
      | refused u _ ↦ rw u at o
      | done r m _ _ d ↦
          revoked-IsOfficer now k r s m (rw (ap (λ (x : RoleStore × Reply (Unit {0})). x.0) d) at o)
    ]
