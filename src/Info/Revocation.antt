-- ===== src/Info/Revocation.antt =====
-- A revoked consent of services/garudainfo stays revoked: `Revoke` (store/consent.go) against
-- everything that the service does later, and against the reads of handler/person.go.
use gpass.Prelude.{
  eq_of_test, lookup, insert, lookup-insert, lookup-insert_self, ℕ, suc, String, ◌≡◌, refl, ap, ◌∙◌,
  ◌⊎◌, inl, inr, false, Option, none, some, [], ◌∷◌, arith, ◌==◌, eq_iff, if◌then◌else◌, Bool-cases,
  Option-cases, ok, err, Result-cases, reply,
}
use gpass.Info.Validate.{Consent, validate_consent}
use gpass.Info.Consents.{
  Store, consent_not_found, consent_revoked, create, revoked, revoke, stamped, is_stale, expire,
  expire_loop, expire_stale,
}
use gpass.Info.Lifecycle.{Step, granting, revoking, expiring, Reach, here, next}
use gpass.Info.Grants.{GrantRequest, grant, requested, is_incomplete, revoke_consent}

-- The store holds a revoked consent under the id.
pub record IsRevoked (id : String) (s : Store) : Type 0 where
  pub consent : Consent
  pub held : lookup id s ≡ some consent
  pub final : consent.status ≡ "REVOKED"

-- What the four outcomes of `Revoke` are, and that only the third changes the store.
pub data Outcome (now : ℕ) (id : String) (s : Store) : Type 0 where
  missing : lookup id s ≡ none → revoke now id s ≡ err consent_not_found → Outcome now id s
  repeated :
      (c : Consent)
      → lookup id s ≡ some c
      → c.status ≡ "REVOKED"
      → revoke now id s ≡ err consent_revoked
      → Outcome now id s
  done :
      (c : Consent)
      → lookup id s ≡ some c
      → (c.status == "REVOKED") ≡ false
      → revoke now id s ≡ ok (insert id (revoked now c) s)
      → Outcome now id s

revoke-Outcome : (now : ℕ) (id : String) (s : Store) → Outcome now id s
unfolding revoke
revoke-Outcome now id s = elim (Option-cases (lookup id s)) [
  | inl e ↦ missing e (rw (e, revoke))
  | inr (c, e) ↦ elim (Bool-cases (c.status == "REVOKED")) [
    | inl old ↦ repeated c e (eq_of_test _ _ old) (rw (e, revoke) (rw old refl))
    | inr new ↦ done c e new (rw (e, revoke) (rw new refl))
  ]
]

-- `Grant` leaves the store as it is, or adds one consent under the fresh id.
grant_store :
    (now : ℕ) (uuid : String) (req : Option GrantRequest) (s : Store)
    → ((grant now uuid req s).0 ≡ s)
      ⊎ ((c : Consent) × ((grant now uuid req s).0 ≡ insert uuid c s))
unfolding grant create
grant_store now uuid none s = inl refl
grant_store now uuid (some req) s = elim (Bool-cases (is_incomplete req)) [
  | inl e ↦ inl (rw e refl)
  | inr e ↦ elim (Result-cases (validate_consent (requested req))) [
    | inl (_, v) ↦ inr (stamped now uuid (requested req), rw e (rw (v, create) refl))
    | inr (x, v) ↦ inl (rw e (rw (v, create) refl))
  ]
]

module _ (id : String) where
  IsRevoked-insert :
      (uuid : String) (c : Consent) (s : Store)
      → lookup uuid s ≡ none
      → IsRevoked id s
      → IsRevoked id (insert uuid c s)
  IsRevoked-insert uuid c s fresh h = record {
    consent = h.consent;
    held = ground (arith, lookup-insert uuid id c s, eq_iff uuid id, h.held);
    final = h.final;
  }

  grant-IsRevoked :
      (now : ℕ) (uuid : String) (req : Option GrantRequest) (s : Store)
      → lookup uuid s ≡ none
      → IsRevoked id s
      → IsRevoked id (grant now uuid req s).0
  grant-IsRevoked now uuid req s fresh h = elim (grant_store now uuid req s) [
    | inl e ↦ rw e h
    | inr (c, e) ↦ rw e (IsRevoked-insert uuid c s fresh h)
  ]

  -- A second revocation, of this consent or of another one, cannot undo the first.
  revoke-IsRevoked :
      (now : ℕ) (k : String) (s : Store) → IsRevoked id s → IsRevoked id (revoke_consent now k s).0
  unfolding revoke_consent
  revoke-IsRevoked now k s h = elim (Bool-cases (k == "")) [
    | inl e ↦ rw e h
    | inr e ↦ rw e (elim (revoke-Outcome now k s) [
      | missing _ r ↦ rw r h
      | repeated _ _ _ r ↦ rw r h
      | done c held new r ↦ rw r (record {
        consent = h.consent;
        held =
            ground
              (arith, lookup-insert k id (revoked now c) s, eq_iff k id, eq_iff c.status "REVOKED");
        final = h.final;
      })
    ])
  ]

  expire_final : (now : ℕ) (c : Consent) → c.status ≡ "REVOKED" → expire now c ≡ c
  expire_final now c e = rw (e, is_stale) refl

  expire_loop-lookup :
      (now count : ℕ) (s : Store) (c : Consent)
      → lookup id s ≡ some c
      → lookup id (expire_loop now count s).1 ≡ some (expire now c)
  unfolding expire_loop lookup
  expire_loop-lookup now count [] c h = cc
  expire_loop-lookup now count ((k, d) ∷ m) c h = elim (Bool-cases (k == id)) [
    | inl e ↦ ground arith
    | inr e ↦
        rw e (expire_loop-lookup now (if is_stale now d then suc count else count) m c (rw e at h))
  ]

  Step-IsRevoked : {s t : Store} → Step s t → IsRevoked id s → IsRevoked id t
  unfolding expire_stale
  Step-IsRevoked (granting now uuid req fresh) h = grant-IsRevoked now uuid req _ fresh h
  Step-IsRevoked (revoking now k) h = revoke-IsRevoked now k _ h
  Step-IsRevoked {s} (expiring now) h = record {
    consent = h.consent;
    held =
        expire_loop-lookup now 0 s h.consent h.held ∙ ap some (expire_final now h.consent h.final);
    final = h.final;
  }

  pub Reach-IsRevoked : {s t : Store} → IsRevoked id s → Reach s t → IsRevoked id t
  Reach-IsRevoked h here = h
  Reach-IsRevoked h (next r st) = Step-IsRevoked st (Reach-IsRevoked h r)

-- A revocation that answers 200 names a consent, and leaves it revoked.
pub revoke_consent-IsRevoked :
    (now : ℕ) (id : String) (s t : Store)
    → revoke_consent now id s ≡ (t, reply 200 tt)
    → ((id == "") ≡ false) × IsRevoked id t
unfolding revoke_consent
revoke_consent-IsRevoked now id s t h = elim (Bool-cases (id == "")) [
  | inl e ↦ absurd (ground arith)
  | inr e ↦ elim (revoke-Outcome now id s) [
    | missing _ r ↦ absurd (ground arith)
    | repeated _ _ _ r ↦ absurd (ground arith)
    | done c held new r ↦ (
      e,
      record {
        consent = revoked now c;
        held = ground (arith, lookup-insert_self id (revoked now c) s);
        final = refl;
      },
    )
  ]
]
