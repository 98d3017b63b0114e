-- ===== src/Sign/Certificates.antt =====
-- services/garudasign/store/certificate.go with the `Certificate` of signing/types.go: the
-- in-memory certificate store. It keeps pointers, but every caller builds a fresh struct and only
-- serialises what it gets, so a map of values behaves the same. The time of a call and the
-- generated id are arguments.
use gpass.Prelude.{
  select, find_first, any_of, Dict, lookup, insert, values, ℕ, String, Bool, not, ◌&&◌, Option,
  none, some, List, ◌==◌, if◌then◌else◌, Result, ok, err,
}

pub record Certificate : Type 0 where
  pub id : String
  pub user_id : String
  pub serial_number : String
  pub issuer_dn : String
  pub subject_dn : String
  pub status : String
  pub valid_from : ℕ
  pub valid_to : ℕ
  pub certificate_pem : String
  pub fingerprint_sha256 : String
  pub revoked_at : Option ℕ
  pub revocation_reason : String
  pub created_at : ℕ
  pub updated_at : ℕ

abbrev pub CertStore : Type 0
CertStore = Dict Certificate

pub data CertError : Type 0 where
  active_certificate_exists : CertError
  certificate_not_found no_active_certificate : String → CertError

-- the test of the loops that look for a user's active certificate
abbrev pub is_active_of : String → Certificate → Bool
is_active_of user_id c = c.user_id == user_id && c.status == "ACTIVE"

abbrev pub cert_stamped : ℕ → String → Certificate → Certificate
cert_stamped now id c = record c { id = id; created_at = now; updated_at = now }

unfoldable pub create_certificate :
    ℕ → String → Certificate → CertStore → Result CertError (Certificate × CertStore)
create_certificate now id c s =
    if (c.status == "ACTIVE" && not (c.user_id == "")) && any_of (is_active_of c.user_id) (values s)
    then err active_certificate_exists
    else ok (cert_stamped now id c, insert id (cert_stamped now id c) s)

unfoldable pub get_certificate : String → CertStore → Result CertError Certificate
get_certificate id s = elim (lookup id s) [ none ↦ err (certificate_not_found id) | some c ↦ ok c ]

unfoldable pub get_active_by_user : String → CertStore → Result CertError Certificate
get_active_by_user user_id s = elim (find_first (is_active_of user_id) (values s)) [
  | none ↦ err (no_active_certificate user_id)
  | some c ↦ ok c
]

unfoldable pub list_certificates : String → String → CertStore → List Certificate
list_certificates user_id status_filter s =
    select
      (λ c.
        c.user_id == user_id && not (not (status_filter == "") && not (c.status == status_filter)))
      (values s)

abbrev pub with_status : ℕ → String → Option ℕ → String → Certificate → Certificate
with_status now status revoked_at reason c = record c {
  status = status;
  revoked_at = revoked_at;
  revocation_reason = reason;
  updated_at = now;
}

unfoldable pub update_certificate :
    ℕ → String → String → Option ℕ → String → CertStore → Result CertError CertStore
update_certificate now id status revoked_at reason s = elim (lookup id s) [
  | none ↦ err (certificate_not_found id)
  | some c ↦ ok (insert id (with_status now status revoked_at reason c) s)
]
