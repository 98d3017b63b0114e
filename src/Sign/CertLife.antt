-- ===== src/Sign/CertLife.antt =====
-- The certificates of services/garudasign over any sequence of certificate requests and
-- revocations.
use gpass.Prelude.{
  select, lookup, values, find_first-none_of_zero, weight, tally, tally-insert_fresh,
  tally-insert_held, ℕ, ◌+◌, ◌≤◌, String, ◌≡◌, refl, sym, ap, ◌∙◌, inl, inr, true, false, Option,
  none, some, [], arith, eq_iff, eq_refl, Bool-cases, err, is_fault,
}
use gpass.Sign.Certificates.{
  Certificate, CertStore, is_active_of, with_status, no_active_certificate, get_active_by_user,
}
use gpass.Sign.Issue.{Outcome, Authority, request_certificate, revoke_certificate}
use gpass.Sign.OneActive.{
  active_count, IsIssued, IsRevocation, IsOneActive, request_certificate_cases,
  revoke_certificate_cases,
}

-- One call that may change the certificates. A new certificate's id is fresh.
pub data CertStep (ca : Authority) (s : CertStore) : CertStore → Type 0 where
  requesting :
      (now : ℕ) (id user_id : String) (body : Option String)
      → lookup id s ≡ none
      → CertStep ca s (request_certificate ca now id user_id body s).0
  revoking :
      (now : ℕ) (user_id id : String) (body : Option String)
      → CertStep ca s (revoke_certificate now user_id id body s).0

pub data CertReach (ca : Authority) (s : CertStore) : CertStore → Type 0 where
  here : CertReach ca s s
  next : {t u : CertStore} → CertReach ca s t → CertStep ca t u → CertReach ca s u

module _ (u : String) where
  issued-count :
      (now : ℕ) (id user_id : String) (s : CertStore) (out : Outcome CertStore Certificate)
      → lookup id s ≡ none
      → IsIssued now id user_id s out
      → active_count u s ≤ 1
      → active_count u out.0 ≤ 1
  issued-count now id user_id s out fresh i h =
      rw i.stored (elim (Bool-cases (is_active_of u i.certificate)) [
        | inl e ↦
            let same : i.certificate.user_id ≡ u =
              ground (arith, e, eq_iff i.certificate.user_id u) in
            let zero_before : active_count u s ≡ 0 = rw (← same, i.own) i.none_before in
            ground
              (arith, tally-insert_fresh (is_active_of u) id i.certificate s fresh, zero_before, e)
        | inr e ↦ ground (arith, tally-insert_fresh (is_active_of u) id i.certificate s fresh, e, h)
      ])

  revoked_inactive :
      (now : ℕ) (reason : String) (c : Certificate)
      → is_active_of u (with_status now "REVOKED" (some now) reason c) ≡ false
  revoked_inactive now reason c = ground arith

  -- A revocation takes the certificate out of the count, if it was in.
  revoked-count :
      (now : ℕ) (user_id id : String) (s : CertStore)
      (out : Outcome CertStore (String × String × ℕ))
      → (r : IsRevocation now user_id id s out)
      → active_count u out.0 + weight (is_active_of u) r.certificate ≡ active_count u s
  revoked-count now user_id id s out r = rw r.stored (
      ground (
        arith,
        tally-insert_held (is_active_of u) id
            (with_status now "REVOKED" (some now) r.reason r.certificate) r.certificate s r.held,
        revoked_inactive now r.reason r.certificate,
      ))

  CertStep-count :
      (ca : Authority) {s t : CertStore}
      → CertStep ca s t
      → active_count u s ≤ 1
      → active_count u t ≤ 1
  CertStep-count ca {s} (requesting now id user_id body fresh) h =
      elim (request_certificate_cases ca now id user_id s body) [
        | inl r ↦ rw r.0 h
        | inr i ↦ issued-count now id user_id s _ fresh i h
      ]
  CertStep-count ca {s} (revoking now user_id id body) h =
      elim (revoke_certificate_cases now user_id id s body) [
        | inl r ↦ rw r.0 h
        | inr r ↦ omega (arith, revoked-count now user_id id s _ r)
      ]

-- From the empty store on, where every new certificate gets a fresh id, no sequence of calls leaves
-- a user with two active certificates.
pub CertReach-IsOneActive : (ca : Authority) {s : CertStore} → CertReach ca [] s → IsOneActive s
unfolding tally values select
CertReach-IsOneActive ca here u = omega arith
CertReach-IsOneActive ca (next r st) u = CertStep-count u ca st (CertReach-IsOneActive ca r u)

none_found :
    (user_id : String) (s : CertStore)
    → active_count user_id s ≡ 0
    → get_active_by_user user_id s ≡ err (no_active_certificate user_id)
unfolding get_active_by_user tally
none_found user_id s h =
    rw (find_first-none_of_zero (is_active_of user_id) (values s) h, get_active_by_user) refl

-- After any calls from the empty store, with fresh ids, the revocation of an active certificate
-- that answers without an error leaves the caller with no active certificate, so that the caller
-- can sign nothing until a new one is issued.
pub revoke_certificate-none_active :
    (ca : Authority) (now : ℕ) (user_id id reason : String) (s : CertStore) (c : Certificate)
    → CertReach ca [] s
    → lookup id s ≡ some c
    → c.status ≡ "ACTIVE"
    → is_fault (revoke_certificate now user_id id (some reason) s).1 ≡ false
    → get_active_by_user user_id (revoke_certificate now user_id id (some reason) s).0
      ≡ err (no_active_certificate user_id)
revoke_certificate-none_active ca now user_id id reason s c reach held active done =
    elim (revoke_certificate_cases now user_id id s (some reason)) [
      | inl r ↦ absurd (ground (arith, r.1, done))
      | inr r ↦
          let t = (revoke_certificate now user_id id (some reason) s).0 in
          let same : c ≡ r.certificate = ground (arith, held, r.held) in
          let is_on : is_active_of user_id r.certificate ≡ true =
            rw (r.own, ap (λ (x : Certificate). x.status) (sym same) ∙ active, eq_refl) refl in
          let zero_after : active_count user_id t ≡ 0 = ground (
            arith,
            revoked-count user_id now user_id id s _ r,
            CertReach-IsOneActive ca reach user_id,
            is_on,
          ) in
          none_found user_id t zero_after
    ]
