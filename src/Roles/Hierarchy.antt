-- ===== src/Roles/Hierarchy.antt =====
-- Who may assign what: the rule of `ValidateRoleAssignment` (services/garudacorp/store/role.go)
-- and what follows for the calls of handler/role.go.
use gpass.Prelude.{
  eq_of_test, negsuc, String, ◌≡◌, refl, ◌↔◌, ◌⊎◌, inl, inr, Bool, true, false, arith, ◌==◌,
  Bool-cases, ok, err, Check,
}
use gpass.Roles.Roles.{role_level, validate_role_assignment, RoleError}

-- An officer is above administrators and users, an administrator above users.
pub data Outranks (caller target : String) : Type 0 where
  officer_admin : caller ≡ "REGISTERED_OFFICER" → target ≡ "ADMIN" → Outranks caller target
  officer_user : caller ≡ "REGISTERED_OFFICER" → target ≡ "USER" → Outranks caller target
  admin_user : caller ≡ "ADMIN" → target ≡ "USER" → Outranks caller target

validate_of_Outranks :
    (caller target : String)
    → Outranks caller target
    → validate_role_assignment caller target ≡ ok tt
unfolding validate_role_assignment role_level
validate_of_Outranks caller target (officer_admin p q) = rw (p, q) refl
validate_of_Outranks caller target (officer_user p q) = rw (p, q) refl
validate_of_Outranks caller target (admin_user p q) = rw (p, q) refl

-- The four classes of role names.
data Rank (role : String) : Type 0 where
  officer : role ≡ "REGISTERED_OFFICER" → Rank role
  admin : role ≡ "ADMIN" → Rank role
  user : role ≡ "USER" → Rank role
  unknown : role_level role ≡ negsuc 0 → Rank role

rank : (role : String) → Rank role
unfolding role_level
rank role = elim (Bool-cases (role == "REGISTERED_OFFICER")) [
  | inl e ↦ officer (eq_of_test _ _ e)
  | inr o ↦ elim (Bool-cases (role == "ADMIN")) [
    | inl e ↦ admin (eq_of_test _ _ e)
    | inr a ↦ elim (Bool-cases (role == "USER")) [
      | inl e ↦ user (eq_of_test _ _ e)
      | inr u ↦ unknown (rw o (rw a (rw u refl)))
    ]
  ]
]

unknown_refused :
    (caller target : String)
    → (role_level caller ≡ negsuc 0) ⊎ (role_level target ≡ negsuc 0)
    → validate_role_assignment caller target ≡ ok tt
    → ⊥
unfolding validate_role_assignment
unknown_refused caller target (inl e) h = ground (arith, e)
unknown_refused caller target (inr e) h = ground (arith, e)

is_refused : Check RoleError → Bool
is_refused (ok _) = false
is_refused (err _) = true

known_refused :
    {caller target c t : String}
    → caller ≡ c
    → target ≡ t
    → validate_role_assignment caller target ≡ ok tt
    → is_refused (validate_role_assignment c t) ≡ true
    → ⊥
unfolding is_refused
known_refused {caller} {target} {c} {t} p q h r =
    let e : validate_role_assignment c t ≡ ok tt = cc in ground (arith, e, r)

Outranks-of_validate :
    (caller target : String)
    → Rank caller
    → Rank target
    → validate_role_assignment caller target ≡ ok tt
    → Outranks caller target
unfolding validate_role_assignment role_level is_refused
Outranks-of_validate c t (officer p) (admin q) h = officer_admin p q
Outranks-of_validate c t (officer p) (user q) h = officer_user p q
Outranks-of_validate c t (admin p) (user q) h = admin_user p q
Outranks-of_validate c t r (unknown q) h = absurd (unknown_refused c t (inr q) h)
Outranks-of_validate c t (unknown p) r h = absurd (unknown_refused c t (inl p) h)
Outranks-of_validate c t (officer p) (officer q) h = absurd (known_refused p q h refl)
Outranks-of_validate c t (admin p) (officer q) h = absurd (known_refused p q h refl)
Outranks-of_validate c t (admin p) (admin q) h = absurd (known_refused p q h refl)
Outranks-of_validate c t (user p) (officer q) h = absurd (known_refused p q h refl)
Outranks-of_validate c t (user p) (admin q) h = absurd (known_refused p q h refl)
Outranks-of_validate c t (user p) (user q) h = absurd (known_refused p q h refl)

-- A caller may assign a role exactly if the caller's role is above it; an unknown role is never
-- assigned and assigns nothing.
pub validate_role_assignment_iff :
    (caller target : String)
    → (validate_role_assignment caller target ≡ ok tt) ↔ Outranks caller target
validate_role_assignment_iff caller target = (
  Outranks-of_validate caller target (rank caller) (rank target),
  validate_of_Outranks caller target,
)
