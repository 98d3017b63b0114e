-- ===== src/Info/Lifecycle.antt =====
-- The life of a consent in services/garudainfo: what every stored consent satisfies, whatever the
-- handlers of handler/consent.go and the store's expiry run did before.
use gpass.Prelude.{
  ne_of_test, lookup, insert, Each, Each-insert, Each-lookup, pos, pos_part, mul64, add_time, ℕ,
  suc, ◌+◌, ◌*◌, ◌≤◌, String, ◌≡◌, refl, sym, ◌∙◌, ◌⊎◌, inl, inr, true, Option, none, some, [], ◌∷◌,
  arith, eq_iff, if◌then◌else◌, Bool-cases, Option-cases, ok, err, Result-cases,
}
use gpass.Info.Validate.{Consent, max_duration, Invalid, validate_consent}
use gpass.Info.Acceptable.{IsAcceptable, validate_consent_iff}
use gpass.Info.Consents.{
  Store, second, create, expire_stale, invalid, stamped, revoked, revoke, is_stale, expire,
  expire_loop,
}
use gpass.Info.Grants.{GrantRequest, grant, revoke_consent, requested}

-- Active and expired consents carry no revocation time, revoked ones do.
pub data HasStage (c : Consent) : Type 0 where
  active : c.status ≡ "ACTIVE" → c.revoked_at ≡ none → HasStage c
  expired : c.status ≡ "EXPIRED" → c.revoked_at ≡ none → HasStage c
  revoked_at : (t : ℕ) → c.status ≡ "REVOKED" → c.revoked_at ≡ some t → HasStage c

pub record IsSound (k : String) (c : Consent) : Type 0 where
  pub own_id : c.id ≡ k
  pub acceptable : IsAcceptable c
  pub stage : HasStage c
  -- the expiry is the grant's time and the full duration, with no overflow
  pub expiry : c.expires_at ≡ c.granted_at + pos_part c.duration_seconds * second

abbrev pub IsSoundStore : Store → Type 0
IsSoundStore = Each IsSound

-- One call that changes the store. A grant's UUID is fresh.
pub data Step (s : Store) : Store → Type 0 where
  granting :
      (now : ℕ) (uuid : String) (req : Option GrantRequest)
      → lookup uuid s ≡ none
      → Step s (grant now uuid req s).0
  revoking : (now : ℕ) (id : String) → Step s (revoke_consent now id s).0
  expiring : (now : ℕ) → Step s (expire_stale now s).1

pub data Reach (s : Store) : Store → Type 0 where
  here : Reach s s
  next : {t u : Store} → Reach s t → Step t u → Reach s u

pub expiry_exact :
    (now n : ℕ) → n ≤ max_duration → add_time now (mul64 (pos n) second) ≡ now + n * second
unfolding add_time mul64
expiry_exact now n h = ground arith

-- Acceptability is about the request, not about what the store writes.
IsAcceptable-same :
    (c : Consent) (id status : String) (granted_at expires_at : ℕ) (at : Option ℕ)
    → IsAcceptable c
    → IsAcceptable (record c {
      id = id;
      granted_at = granted_at;
      expires_at = expires_at;
      revoked_at = at;
      status = status;
    })
IsAcceptable-same c id status granted_at expires_at at a = record {
  user_id = a.user_id;
  client_id = a.client_id;
  client_name = a.client_name;
  purpose = a.purpose;
  seconds = a.seconds;
  lasts = a.lasts;
  long_enough = a.long_enough;
  short_enough = a.short_enough;
  some_field = a.some_field;
  few_fields = a.few_fields;
  allowed = a.allowed;
  grants = a.grants;
}

stamped-IsSound :
    (now : ℕ) (uuid : String) (c : Consent)
    → c.revoked_at ≡ none
    → IsAcceptable c
    → IsSound uuid (stamped now uuid c)
stamped-IsSound now uuid c fresh a = record {
  own_id = refl;
  acceptable = IsAcceptable-same c _ _ _ _ _ a;
  stage = active refl fresh;
  expiry = rw a.lasts (expiry_exact now a.seconds a.short_enough);
}

-- A successful `Create` stores one sound consent under the fresh id; a refused one stores nothing.
pub create_cases :
    (now : ℕ) (uuid : String) (c : Consent) (s : Store)
    → (IsAcceptable c
        × (create now uuid c s ≡ ok (stamped now uuid c, insert uuid (stamped now uuid c) s)))
      ⊎ ((e : Invalid) × (create now uuid c s ≡ err (invalid e)))
unfolding create
create_cases now uuid c s = elim (Result-cases (validate_consent c)) [
  | inl (_, e) ↦ inl ((validate_consent_iff c).0 e, rw (e, create))
  | inr (x, e) ↦ inr (x, rw (e, create))
]

grant-IsSoundStore :
    (now : ℕ) (uuid : String) (req : Option GrantRequest) (s : Store)
    → IsSoundStore s
    → IsSoundStore (grant now uuid req s).0
unfolding grant requested
grant-IsSoundStore now uuid none s h = h
grant-IsSoundStore now uuid (some req) s h = elim (create_cases now uuid (requested req) s) [
  | inl (a, e) ↦ rw e (
      ground (
        arith,
        Each-insert IsSound uuid (stamped now uuid (requested req)) s
            (stamped-IsSound now uuid (requested req) refl a) h,
      ))
  | inr (x, e) ↦ rw e (ground arith)
]

revoke-IsSoundStore :
    (now : ℕ) (id : String) (s : Store) → IsSoundStore s → IsSoundStore (revoke_consent now id s).0
unfolding revoke_consent revoke
revoke-IsSoundStore now id s h = elim (Option-cases (lookup id s)) [
  | inl e ↦ ground arith
  | inr (c, e) ↦
      let sound = Each-lookup IsSound id s c h e in
      ground (
        arith,
        Each-insert IsSound id (revoked now c) s
            (record {
              own_id = sound.own_id;
              acceptable = IsAcceptable-same c _ _ _ _ _ sound.acceptable;
              stage = revoked_at now refl refl;
              expiry = sound.expiry;
            })
            h,
      )
]

is_stale-active : (now : ℕ) (c : Consent) → is_stale now c ≡ true → c.status ≡ "ACTIVE"
is_stale-active now c e = ground (arith, eq_iff c.status "ACTIVE")

not_revoked : (c : Consent) → HasStage c → c.status ≡ "ACTIVE" → c.revoked_at ≡ none
not_revoked c (active s r) e = r
not_revoked c (expired s r) e = r
not_revoked c (revoked_at t s r) e = absurd (ne_of_test "REVOKED" "ACTIVE" refl (sym s ∙ e))

expire-IsSound : (now : ℕ) (k : String) (c : Consent) → IsSound k c → IsSound k (expire now c)
expire-IsSound now k c h = elim (Bool-cases (is_stale now c)) [
  | inl e ↦ rw e (record {
    own_id = h.own_id;
    acceptable = IsAcceptable-same c _ _ _ _ _ h.acceptable;
    stage = expired refl (not_revoked c h.stage (is_stale-active now c e));
    expiry = h.expiry;
  })
  | inr e ↦ rw e h
]

expire_loop-IsSoundStore :
    (now count : ℕ) (s : Store) → IsSoundStore s → IsSoundStore (expire_loop now count s).1
unfolding expire_loop
expire_loop-IsSoundStore now count [] h = tt
expire_loop-IsSoundStore now count ((k, c) ∷ m) h = (
  expire-IsSound now k c h.0,
  expire_loop-IsSoundStore now (if is_stale now c then suc count else count) m h.1,
)

Step-IsSoundStore : {s t : Store} → Step s t → IsSoundStore s → IsSoundStore t
unfolding expire_stale
Step-IsSoundStore (granting now uuid req fresh) h = grant-IsSoundStore now uuid req _ h
Step-IsSoundStore (revoking now id) h = revoke-IsSoundStore now id _ h
Step-IsSoundStore (expiring now) h = expire_loop-IsSoundStore now 0 _ h

-- Every consent stored after any calls from the empty store is sound: it was acceptable when it was granted, its
-- expiry is exact, and its status agrees with its revocation time.
pub Reach-IsSoundStore : {s : Store} → Reach [] s → IsSoundStore s
Reach-IsSoundStore here = tt
Reach-IsSoundStore (next r st) = Step-IsSoundStore st (Reach-IsSoundStore r)
