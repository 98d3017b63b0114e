-- ===== src/Roles/Revocation.antt =====
-- A role revoked through services/garudacorp/handler/role.go stays revoked.
use gpass.Prelude.{
  Dict, lookup, lookup-insert, lookup-insert_self, lookup-insert_fresh, ℕ, String, ◌≡◌, refl, ap,
  inl, inr, false, some, arith, eq_iff, ok, Reply, reply,
}
use gpass.Roles.Roles.{EntityRole, RoleStore, assigned, get_role, role_revoked, serves}
use gpass.Roles.Assign.{new_role, AssignReply, revoke_entity_role}
use gpass.Roles.Delegation.{assign_role_cases}
use gpass.Roles.Reach.{Step, assigning, revoking, Reach, here, next, refused, done, revoke_cases}

-- The store holds a revoked role of the entity under the id.
pub record IsRevokedRole (id entity_id : String) (s : RoleStore) : Type 0 where
  pub held_role : EntityRole
  pub held : lookup id s ≡ some held_role
  pub final : held_role.status ≡ "REVOKED"
  pub in_entity : held_role.entity_id ≡ entity_id

serves_revoked :
    (entity_id user : String) (r : EntityRole)
    → r.status ≡ "REVOKED"
    → serves entity_id user r ≡ false
serves_revoked entity_id user r e = rw e (ground arith)

revoke_entity_role-IsRevokedRole :
    (id entity_id : String) (now : ℕ) (s t : RoleStore)
    → revoke_entity_role now entity_id id s ≡ (t, reply 200 tt)
    → IsRevokedRole id entity_id t
revoke_entity_role-IsRevokedRole id entity_id now s t h = elim (revoke_cases now entity_id id s) [
  | refused _ f ↦ absurd (ground (arith, h, f))
  | done r m o _ d ↦ record {
    held_role = role_revoked now r;
    held = ground (arith, h, d, lookup-insert_self id (role_revoked now r) s);
    final = refl;
    in_entity = o;
  }
]

module _ (id entity_id : String) {E : Type 0} {quoted : String → String} {entities : Dict E} where
  Step-IsRevokedRole :
      {s t : RoleStore}
      → Step quoted entities s t
      → IsRevokedRole id entity_id s
      → IsRevokedRole id entity_id t
  Step-IsRevokedRole {s} (assigning now uuid e req fresh) o =
      elim (assign_role_cases quoted now uuid e entities s req) [
        | inl u ↦ rw u.0 o
        | inr (r, _, _, d) ↦ rw (ap (λ (x : RoleStore × AssignReply). x.0) d) (record {
          held_role = o.held_role;
          held =
              lookup-insert_fresh uuid id (assigned now uuid (new_role e r)) o.held_role s fresh
                o.held;
          final = o.final;
          in_entity = o.in_entity;
        })
      ]
  Step-IsRevokedRole {s} (revoking now e k) o = elim (revoke_cases now e k s) [
    | refused u _ ↦ rw u o
    | done r m _ new d ↦ rw (ap (λ (x : RoleStore × Reply (Unit {0})). x.0) d) (record {
      held_role = o.held_role;
      held = ground (
        arith,
        lookup-insert k id (role_revoked now r) s,
        eq_iff k id,
        eq_iff r.status "REVOKED",
        o.held,
        o.final,
      );
      final = o.final;
      in_entity = o.in_entity;
    })
  ]

  Reach-IsRevokedRole :
      {s t : RoleStore}
      → Reach quoted entities s t
      → IsRevokedRole id entity_id s
      → IsRevokedRole id entity_id t
  Reach-IsRevokedRole here o = o
  Reach-IsRevokedRole (next r st) o = Step-IsRevokedRole st (Reach-IsRevokedRole r o)

  -- Once `RevokeRole` has answered 200, then after any further calls, new roles having fresh ids,
  -- the role is still stored as revoked, so it never again serves as an active role, and its entity
  -- stays the same.
  pub Reach-revoked :
      (now : ℕ) (s : RoleStore) {t u : RoleStore}
      → revoke_entity_role now entity_id id s ≡ (t, reply 200 tt)
      → Reach quoted entities t u
      → (r : EntityRole) × (get_role id u ≡ ok r)
        × (r.entity_id ≡ entity_id)
        × ((user : String) → serves entity_id user r ≡ false)
  unfolding get_role
  Reach-revoked now s {t} {u} h r =
      let o = Reach-IsRevokedRole r (revoke_entity_role-IsRevokedRole id entity_id now s t h) in
      (
        o.held_role,
        rw (o.held, get_role) refl,
        o.in_entity,
        λ user. serves_revoked entity_id user o.held_role o.final,
      )
