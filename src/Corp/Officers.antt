-- ===== src/Corp/Officers.antt =====
-- The registered officers of services/garudacorp over any sequence of calls of the registration and
-- role handlers (handler/register.go and handler/role.go), which share the role store.
use gpass.Prelude.{lookup-insert_cases, ℕ, String, ◌≡◌, ap, ◌∙◌, ◌⊎◌, inl, inr, Option, some, reply}
use gpass.Roles.Roles.{EntityRole, RoleStore}
use gpass.Roles.Reach.{Step, IsOfficer, Step-IsOfficer}
use gpass.Corp.Register.{AhuVerifier, RegisterRequest, Drawn, register}
use gpass.Corp.Entities.{EntityStore}
use gpass.Corp.Founding.{IsEntitled, register_cases}

-- the two stores that the handlers share
abbrev pub Stores : Type 0 → Type 0
Stores F = EntityStore F × RoleStore

module _ {F : Type 0} (tokenize : String → String) (ahu : ℕ → AhuVerifier F) where
  -- the two stores after a call of Register
  abbrev pub after_register : Drawn → Option RegisterRequest → Stores F → Stores F
  after_register drawn body u =
      let answer = register tokenize (ahu drawn.now) drawn body u.0 u.1 in (answer.0, answer.1)

-- Any calls of Register, AssignRole and RevokeRole. AHU may answer otherwise at another time.
pub data CorpReach {F : Type 0} (tokenize quoted : String → String) (ahu : ℕ → AhuVerifier F)
    (s : Stores F) : Stores F → Type 0 where
  start : CorpReach tokenize quoted ahu s s
  on_roles :
      {u : Stores F} {roles : RoleStore}
      → CorpReach tokenize quoted ahu s u
      → Step quoted u.0 u.1 roles
      → CorpReach tokenize quoted ahu s (u.0, roles)
  registering :
      {u : Stores F}
      → CorpReach tokenize quoted ahu s u
      → (drawn : Drawn) (body : Option RegisterRequest)
      → CorpReach tokenize quoted ahu s (after_register tokenize ahu drawn body u)

module _ {F : Type 0} (tokenize quoted : String → String) (ahu : ℕ → AhuVerifier F) (s : Stores F)
    (id entity_id user_id : String) where
  -- Among the calls that led to these stores is one of Register by the user, whom AHU names at that
  -- time as the company's Direktur Utama. It was answered with the entity, and its role has the id.
  pub record IsMade (t : Stores F) : Type 0 where
    pub before : Stores F
    pub earlier : CorpReach tokenize quoted ahu s before
    pub drawn : Drawn
    pub req : RegisterRequest
    pub entitled : IsEntitled tokenize (ahu drawn.now) drawn req
    pub answered :
        (register tokenize (ahu drawn.now) drawn (some req) before.0 before.1).2
        ≡ reply 201 (record { entity_id = entity_id; role = "REGISTERED_OFFICER" })
    pub own : req.caller_user_id ≡ user_id
    pub under : drawn.role_uuid ≡ id
    pub later :
        CorpReach tokenize quoted ahu (after_register tokenize ahu drawn (some req) before) t

  -- Further calls keep what led to the stores before them.
  IsMade-later :
      {t u : Stores F} (m : IsMade t)
      → CorpReach tokenize quoted ahu (after_register tokenize ahu m.drawn (some m.req) m.before) u
      → IsMade u
  IsMade-later m onward = record {
    before = m.before;
    earlier = m.earlier;
    drawn = m.drawn;
    req = m.req;
    entitled = m.entitled;
    answered = m.answered;
    own = m.own;
    under = m.under;
    later = onward;
  }

  -- What Register does to the officers.
  registered-IsOfficer :
      {u : Stores F} (drawn : Drawn) (body : Option RegisterRequest)
      → CorpReach tokenize quoted ahu s u
      → IsOfficer id entity_id user_id (after_register tokenize ahu drawn body u).1
      → IsOfficer id entity_id user_id u.1 ⊎ IsMade (after_register tokenize ahu drawn body u)
  registered-IsOfficer {u} drawn body r o =
      elim (register_cases tokenize (ahu drawn.now) drawn body u.0 u.1) [
        | inl (_, same, _) ↦ inl (rw same at o)
        | inr (req, asked, new) ↦
            let kept = rw new.assigned_role at o.held in
            elim (lookup-insert_cases drawn.role_uuid id _ o.held_role u.1 kept) [
              | inr (_, old) ↦ inl (record {
                held_role = o.held_role;
                held = old;
                level = o.level;
                in_entity = o.in_entity;
                own = o.own;
              })
              | inl (key, role) ↦ inr (
                  rw asked (record {
                    before = u;
                    earlier = r;
                    drawn = drawn;
                    req = req;
                    entitled = new.entitled;
                    answered = rw (← asked) (
                        rw (← (ap (λ (x : EntityRole). x.entity_id) role ∙ o.in_entity))
                          new.answered);
                    own = ap (λ (x : EntityRole). x.user_id) role ∙ o.own;
                    under = key;
                    later = start;
                  }))
            ]
      ]

  -- Whatever calls of Register, AssignRole and RevokeRole are made, where AssignRole draws fresh ids
  -- for new roles, a registered officer's role was there before them, under the same id, for the same
  -- user and entity, or one of them was a call of Register by that user which AHU, as it answered then,
  -- entitled to register the company: it was answered with that entity, and the role has the id that
  -- it drew.
  pub CorpReach-IsOfficer :
      {t : Stores F}
      → CorpReach tokenize quoted ahu s t
      → IsOfficer id entity_id user_id t.1
      → IsOfficer id entity_id user_id s.1 ⊎ IsMade t
  CorpReach-IsOfficer start o = inl o
  CorpReach-IsOfficer (on_roles r st) o =
      elim (CorpReach-IsOfficer r (Step-IsOfficer id entity_id user_id st o)) [
        | inl old ↦ inl old
        | inr made ↦ inr (IsMade-later made (on_roles made.later st))
      ]
  CorpReach-IsOfficer (registering r drawn body) o = elim (registered-IsOfficer drawn body r o) [
    | inr made ↦ inr made
    | inl old ↦ elim (CorpReach-IsOfficer r old) [
      | inl first ↦ inl first
      | inr made ↦ inr (IsMade-later made (registering made.later drawn body))
    ]
  ]
