-- ===== src/Sign/OneActive.antt =====
-- One active certificate per user: the invariant that `Create` of
-- services/garudasign/store/certificate.go is there to enforce, over the calls of
-- handler/certificate.go and handler/revocation.go.
use gpass.Prelude.{
  one_of, eq_of_test, any_of, lookup, insert, values, any_of-false, tally, ℕ, ◌≤◌, String, ◌≡◌,
  refl, ◌⊎◌, inl, inr, true, false, Option, none, some, ◌==◌, Bool-cases, Option-cases, ok, err,
  Result-cases, reply, is_fault,
}
use gpass.Sign.Certificates.{
  Certificate, CertStore, active_certificate_exists, is_active_of, cert_stamped, create_certificate,
  get_active_by_user, certificate_not_found, get_certificate, with_status, update_certificate,
}
use gpass.Sign.Issue.{
  Outcome, Authority, issued, issue_and_store, request_certificate, valid_revocation_reasons,
  revoke_certificate, asked_for,
}

abbrev pub active_count : String → CertStore → ℕ
active_count user_id s = tally (is_active_of user_id) s

abbrev pub IsOneActive : CertStore → Type 0
IsOneActive s = (user_id : String) → active_count user_id s ≤ 1

-- `Create` of an active certificate for a named user: refused if one is there, and stored if not.
create_active_cases :
    (now : ℕ) (id : String) (c : Certificate) (s : CertStore)
    → c.status ≡ "ACTIVE"
    → (c.user_id == "") ≡ false
    → (create_certificate now id c s ≡ err active_certificate_exists)
      ⊎ ((active_count c.user_id s ≡ 0)
          × (create_certificate now id c s
              ≡ ok (cert_stamped now id c, insert id (cert_stamped now id c) s)))
unfolding create_certificate tally
create_active_cases now id c s a named =
    elim (Bool-cases (any_of (is_active_of c.user_id) (values s))) [
      | inl e ↦ inl (rw (a, named, e) refl)
      | inr e ↦ inr (any_of-false (is_active_of c.user_id) (values s) e, rw (a, named, e) refl)
    ]

abbrev pub IsRefused : {A : Type 0} → CertStore → Outcome CertStore A → Type 0
IsRefused s out = (out.0 ≡ s) × (is_fault out.1 ≡ true)

-- An issued certificate: the only active one of its user, who had none before.
pub record IsIssued (now : ℕ) (id user_id : String) (s : CertStore)
    (out : Outcome CertStore Certificate) : Type 0 where
  pub certificate : Certificate
  pub answered : out.1 ≡ reply 201 certificate
  pub stored : out.0 ≡ insert id certificate s
  pub own : certificate.user_id ≡ user_id
  pub is_active : certificate.status ≡ "ACTIVE"
  pub none_before : active_count user_id s ≡ 0

module _ (ca : Authority) (now : ℕ) (id user_id : String) (s : CertStore) where
  issue_cases :
      (subject_cn : String)
      → (user_id == "") ≡ false
      → IsRefused s (issue_and_store ca now id user_id subject_cn s)
        ⊎ IsIssued now id user_id s (issue_and_store ca now id user_id subject_cn s)
  unfolding issue_and_store
  issue_cases subject_cn named = elim (Option-cases (ca.issue (asked_for ca user_id subject_cn))) [
    | inl e ↦ inl (rw (e, issue_and_store) refl, rw (e, issue_and_store) refl)
    | inr (resp, e) ↦ elim (create_active_cases now id (issued ca user_id resp) s refl named) [
      | inl r ↦ inl (rw (e, issue_and_store) (rw r refl), rw (e, issue_and_store) (rw r refl))
      | inr (zero_before, r) ↦ inr (record {
        certificate = cert_stamped now id (issued ca user_id resp);
        answered = rw (e, issue_and_store) (rw r refl);
        stored = rw (e, issue_and_store) (rw r refl);
        own = refl;
        is_active = refl;
        none_before = zero_before;
      })
    ]
  ]

  -- A certificate request is either refused and stores nothing, or it stores one active
  -- certificate for a user who had no active one.
  pub request_certificate_cases :
      (body : Option String)
      → IsRefused s (request_certificate ca now id user_id body s)
        ⊎ IsIssued now id user_id s (request_certificate ca now id user_id body s)
  unfolding request_certificate
  request_certificate_cases body = elim (Bool-cases (user_id == "")) [
    | inl e ↦ inl (rw e refl, rw e refl)
    | inr e ↦ elim (Result-cases (get_active_by_user user_id s)) [
      | inl (c, g) ↦ inl (rw e (rw g refl), rw e (rw g refl))
      | inr (x, g) ↦ elim (Option-cases body) [
        | inl b ↦ inl (rw e (rw g (rw b refl)), rw e (rw g (rw b refl)))
        | inr (cn, b) ↦ rw e (rw g (rw b (issue_cases cn e)))
      ]
    ]
  ]

-- A revocation that is done: the owner's certificate, which was not revoked, now is.
pub record IsRevocation (now : ℕ) (user_id id : String) (s : CertStore)
    (out : Outcome CertStore (String × String × ℕ)) : Type 0 where
  pub certificate : Certificate
  pub reason : String
  pub held : lookup id s ≡ some certificate
  pub own : certificate.user_id ≡ user_id
  pub valid : one_of valid_revocation_reasons reason ≡ true
  pub not_yet : (certificate.status == "REVOKED") ≡ false
  pub stored : out.0 ≡ insert id (with_status now "REVOKED" (some now) reason certificate) s
  pub answered : out.1 ≡ reply 200 (id, reason, now)

module _ (now : ℕ) (user_id id : String) (s : CertStore) where
  update_held :
      (reason : String) (c : Certificate)
      → lookup id s ≡ some c
      → update_certificate now id "REVOKED" (some now) reason s
        ≡ ok (insert id (with_status now "REVOKED" (some now) reason c) s)
  unfolding update_certificate
  update_held reason c e = rw (e, update_certificate) refl

  get_held : (c : Certificate) → lookup id s ≡ some c → get_certificate id s ≡ ok c
  unfolding get_certificate
  get_held c e = rw (e, get_certificate) refl

  get_missing : lookup id s ≡ none → get_certificate id s ≡ err (certificate_not_found id)
  unfolding get_certificate
  get_missing e = rw (e, get_certificate) refl

  -- A revocation is either refused and changes nothing, or it is the owner's, for a valid reason,
  -- of a certificate that was not revoked, which alone is marked.
  pub revoke_certificate_cases :
      (body : Option String)
      → IsRefused s (revoke_certificate now user_id id body s)
        ⊎ IsRevocation now user_id id s (revoke_certificate now user_id id body s)
  unfolding revoke_certificate
  revoke_certificate_cases none = elim (Bool-cases (user_id == "")) [
    | inl e ↦ inl (rw e refl, rw e refl)
    | inr e ↦ elim (Bool-cases (id == "")) [
      | inl i ↦ inl (rw e (rw i refl), rw e (rw i refl))
      | inr i ↦ inl (rw e (rw i refl), rw e (rw i refl))
    ]
  ]
  revoke_certificate_cases (some reason) = elim (Bool-cases (user_id == "")) [
    | inl e ↦ inl (rw e refl, rw e refl)
    | inr e ↦ elim (Bool-cases (id == "")) [
      | inl i ↦ inl (rw e (rw i refl), rw e (rw i refl))
      | inr i ↦ elim (Bool-cases (one_of valid_revocation_reasons reason)) [
        | inr v ↦ inl (rw e (rw i (rw v refl)), rw e (rw i (rw v refl)))
        | inl v ↦ elim (Option-cases (lookup id s)) [
          | inl m ↦ inl (
            rw e (rw i (rw v (rw (get_missing m) refl))),
            rw e (rw i (rw v (rw (get_missing m) refl))),
          )
          | inr (c, m) ↦ elim (Bool-cases (c.user_id == user_id)) [
            | inr o ↦ inl (
              rw e (rw i (rw v (rw (get_held c m) (rw o refl)))),
              rw e (rw i (rw v (rw (get_held c m) (rw o refl)))),
            )
            | inl o ↦ elim (Bool-cases (c.status == "REVOKED")) [
              | inl d ↦ inl (
                rw e (rw i (rw v (rw (get_held c m) (rw o (rw d refl))))),
                rw e (rw i (rw v (rw (get_held c m) (rw o (rw d refl))))),
              )
              | inr d ↦ inr (record {
                certificate = c;
                reason = reason;
                held = m;
                own = eq_of_test _ _ o;
                valid = v;
                not_yet = d;
                stored = rw e (
                    rw i
                      (rw v (rw (get_held c m) (rw o (rw d (rw (update_held reason c m) refl))))));
                answered = rw e (
                    rw i
                      (rw v (rw (get_held c m) (rw o (rw d (rw (update_held reason c m) refl))))));
              })
            ]
          ]
        ]
      ]
    ]
  ]
