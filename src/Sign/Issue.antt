-- ===== src/Sign/Issue.antt =====
-- services/garudasign/handler/certificate.go and handler/revocation.go: issuing, listing and
-- revoking a certificate. A request is its decoded body; `none` is a body that is no JSON. The
-- certificate authority, the validity that it is asked for and the reading of its time stamps are
-- parameters.
use gpass.Prelude.{
  one_of, Dict, ℕ, String, not, Option, none, some, List, [], ◌∷◌, ◌==◌, if◌then◌else◌, ok, err,
  Reply, reply, fault,
}
use gpass.Sign.Certificates.{
  Certificate, CertStore, active_certificate_exists, create_certificate, get_certificate,
  get_active_by_user, list_certificates, update_certificate,
}

pub record IssueRequest : Type 0 where
  pub subject_cn : String
  pub subject_uid : String
  pub validity_days : ℕ

pub record IssueResponse : Type 0 where
  pub serial_number : String
  pub certificate_pem : String
  pub issuer_dn : String
  pub subject_dn : String
  pub valid_from : String
  pub valid_to : String
  pub fingerprint_sha256 : String

-- services/garudasign/audit/emitter.go
pub record AuditEvent : Type 0 where
  pub user_id : String
  pub action : String
  pub metadata : Dict String

-- What a handler leaves behind: the store, the reply, and the audit events that it emitted.
abbrev pub Outcome : Type 0 → Type 0 → Type 0
Outcome S A = S × Reply A × List AuditEvent

pub record Authority : Type 0 where
  pub issue : IssueRequest → Option IssueResponse
  pub parse_time : String → ℕ
  pub validity_days : ℕ

abbrev pub issued : Authority → String → IssueResponse → Certificate
issued ca user_id resp = record {
  id = "";
  user_id = user_id;
  serial_number = resp.serial_number;
  issuer_dn = resp.issuer_dn;
  subject_dn = resp.subject_dn;
  status = "ACTIVE";
  valid_from = ca.parse_time resp.valid_from;
  valid_to = ca.parse_time resp.valid_to;
  certificate_pem = resp.certificate_pem;
  fingerprint_sha256 = resp.fingerprint_sha256;
  revoked_at = none;
  revocation_reason = "";
  created_at = 0;
  updated_at = 0;
}

abbrev pub asked_for : Authority → String → String → IssueRequest
asked_for ca user_id subject_cn = record {
  subject_cn = if subject_cn == "" then user_id else subject_cn;
  subject_uid = user_id;
  validity_days = ca.validity_days;
}

-- the end of `RequestCertificate`: the authority is asked, and its answer stored
unfoldable pub issue_and_store :
    Authority → ℕ → String → String → String → CertStore → Outcome CertStore Certificate
issue_and_store ca now id user_id subject_cn s = elim (ca.issue (asked_for ca user_id subject_cn)) [
  | none ↦ (s, fault 500 "issue_failed" "Failed to issue certificate", [])
  | some resp ↦ elim (create_certificate now id (issued ca user_id resp) s) [
    | err active_certificate_exists ↦
        (s, fault 409 "active_cert_exists" "User already has an active certificate", [])
    | err _ ↦ (s, fault 500 "store_failed" "Failed to store certificate", [])
    | ok (c, s') ↦ (
      s',
      reply 201 c,
      record {
        user_id = user_id;
        action = "CERT_ISSUED";
        metadata = ("certificate_id", c.id) ∷ ("serial_number", c.serial_number) ∷ [];
      }
          ∷ [],
    )
  ]
]

unfoldable pub request_certificate :
    Authority → ℕ → String → String → Option String → CertStore → Outcome CertStore Certificate
unfolding issue_and_store
request_certificate ca now id user_id body s =
    if user_id == ""
    then (s, fault 400 "missing_user_id" "X-User-ID header is required", [])
    else elim (get_active_by_user user_id s) [
      | ok _ ↦ (s, fault 409 "active_cert_exists" "User already has an active certificate", [])
      | err _ ↦ elim body [
        | none ↦ (s, fault 400 "invalid_request" "Invalid JSON body", [])
        | some subject_cn ↦ issue_and_store ca now id user_id subject_cn s
      ]
    ]

unfoldable pub list_for_user : String → String → CertStore → Reply (List Certificate)
list_for_user user_id status_filter s =
    if user_id == ""
    then fault 400 "missing_user_id" "X-User-ID header is required"
    else reply 200 (list_certificates user_id status_filter s)

abbrev pub valid_revocation_reasons : List String
valid_revocation_reasons =
    "key_compromise" ∷ "affiliation_changed" ∷ "superseded" ∷ "cessation_of_operation"
    ∷ "privilege_withdrawn" ∷ []

-- The reply carries the certificate's id, the reason and the time.
unfoldable pub revoke_certificate :
    ℕ → String → String → Option String → CertStore → Outcome CertStore (String × String × ℕ)
revoke_certificate now user_id cert_id none s =
    if user_id == ""
    then (s, fault 400 "missing_user_id" "X-User-ID header is required", [])
    else if cert_id == ""
    then (s, fault 400 "invalid_request" "certificate id is required", [])
    else (s, fault 400 "invalid_request" "Invalid JSON body", [])
revoke_certificate now user_id cert_id (some reason) s =
    if user_id == ""
    then (s, fault 400 "missing_user_id" "X-User-ID header is required", [])
    else if cert_id == ""
    then (s, fault 400 "invalid_request" "certificate id is required", [])
    else if not (one_of valid_revocation_reasons reason)
    then (s, fault 400 "invalid_reason" "Invalid revocation reason", [])
    else elim (get_certificate cert_id s) [
      | err _ ↦ (s, fault 404 "not_found" "Certificate not found", [])
      | ok c ↦
          if not (c.user_id == user_id)
          then (s, fault 403 "forbidden" "You do not own this certificate", [])
          else if c.status == "REVOKED"
          then (s, fault 409 "already_revoked" "Certificate is already revoked", [])
          else elim (update_certificate now cert_id "REVOKED" (some now) reason s) [
            | err _ ↦ (s, fault 500 "revoke_failed" "Failed to revoke certificate", [])
            | ok s' ↦ (
              s',
              reply 200 (cert_id, reason, now),
              record {
                user_id = user_id;
                action = "CERT_REVOKED";
                metadata = ("certificate_id", cert_id) ∷ ("revocation_reason", reason) ∷ [];
              }
                  ∷ [],
            )
          ]
    ]
