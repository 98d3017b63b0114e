-- ===== src/Sign/Tests.antt =====
-- Runs of services/garudasign, and its theorems at concrete inputs.
use gpass.Prelude.{
  one_of, select, find_first, any_of, lookup, insert, values, tally, ◌≤◌, ◌≡◌, refl, ◌⊎◌, true,
  none, some, [], ◌∷◌, arith, ok, reply, fault, is_fault,
}
use gpass.Sign.Certificates.{
  Certificate, CertStore, create_certificate, get_certificate, get_active_by_user,
  list_certificates, update_certificate,
}
use gpass.Sign.Requests.{
  SigningRequest, SignedDocument, request_stamped, create_request, get_request, list_requests,
  update_request, create_document, get_by_request_id,
}
use gpass.Sign.Issue.{Authority, request_certificate, list_for_user, revoke_certificate}
use gpass.Sign.Documents.{
  read, Outside, SignState, owned_request, guarded, ready, load_document, packed, moved, complete,
  sign,
}
use gpass.Sign.Reads.{get_status, send, download}
use gpass.Sign.Upload.{Upload, is_pdf_name, has_pdf_magic, pending, open_request, upload}
use gpass.Sign.Outcomes.{IsRefusal, sign_cases, IsFailure}
use gpass.Sign.Consistency.{
  uploading, SignReach, neither, IsConsistent, SignReach-IsConsistent, here, next,
}
use gpass.Sign.Once.{sign_once, sign_progress}
use gpass.Sign.OneActive.{active_count}
use gpass.Sign.CertLife.{requesting, CertReach, CertReach-IsOneActive}
use gpass.Sign.CertLife
use gpass.Sign.Signing.{IsSigned}

program : Unit {0}
unfolding create_certificate get_certificate get_active_by_user list_certificates update_certificate
    create_request get_request list_requests update_request create_document get_by_request_id
    request_certificate list_for_user revoke_certificate owned_request guarded ready load_document
    packed moved complete sign get_status send download is_pdf_name has_pdf_magic open_request
    upload lookup insert values select find_first any_of one_of tally
program = tt

abbrev authority : Authority
authority = record {
  issue = λ q. some (record {
    serial_number = "01";
    certificate_pem = "PEM";
    issuer_dn = "CN=CA";
    subject_dn = q.subject_cn;
    valid_from = "2026";
    valid_to = "2027";
    fingerprint_sha256 = "ff";
  });
  parse_time = λ _. 7;
  validity_days = 365;
}

abbrev ani_cert : Certificate
ani_cert = record {
  id = "cert1";
  user_id = "ani";
  serial_number = "01";
  issuer_dn = "CN=CA";
  subject_dn = "ani";
  status = "ACTIVE";
  valid_from = 7;
  valid_to = 7;
  certificate_pem = "PEM";
  fingerprint_sha256 = "ff";
  revoked_at = none;
  revocation_reason = "";
  created_at = 10;
  updated_at = 10;
}

abbrev one_cert : CertStore
one_cert = ("cert1", ani_cert) ∷ []

issue_runs : request_certificate authority 10 "cert1" "ani" (some "") [] ≡ (
  one_cert,
  reply 201 ani_cert,
  record {
    user_id = "ani";
    action = "CERT_ISSUED";
    metadata = ("certificate_id", "cert1") ∷ ("serial_number", "01") ∷ [];
  }
      ∷ [],
)
unfolding program
issue_runs = refl

issue_again :
    (request_certificate authority 11 "cert2" "ani" (some "") one_cert).1
    ≡ fault 409 "active_cert_exists" "User already has an active certificate"
unfolding program
issue_again = refl

lists :
    (list_for_user "ani" "REVOKED" one_cert ≡ reply 200 [])
    × (list_for_user "ani" "" one_cert ≡ reply 200 (ani_cert ∷ []))
unfolding program
lists = (refl, refl)

abbrev working : Outside
working = record {
  load = λ _. read (1 ∷ 2 ∷ []);
  save = λ name _. some name;
  sign_document = λ q. ok (record {
    signed_document_base64 = q.document_base64;
    signature_timestamp = "2026";
    pades_level = q.signature_level;
  });
  encode64 = λ _. "AQI=";
  decode64 = λ _. some (1 ∷ 2 ∷ 3 ∷ []);
  compute_hash = λ _. some "hash";
  parse_time = λ _. 20;
}

abbrev pdf : Upload
pdf = record { filename = "Akta.PDF"; size = 6; content = 37 ∷ 80 ∷ 68 ∷ 70 ∷ 45 ∷ 49 ∷ [] }

abbrev akta : SigningRequest
akta = request_stamped 12 "q1" (pending "ani" pdf "hash" "Akta.PDF" 112)

abbrev uploaded : SignState
uploaded = record {
  certs = one_cert;
  requests = ("q1", akta) ∷ [];
  documents = record { docs = []; by_id = [] };
}

upload_runs : (upload working 100 12 "q1" "ani" (some (some pdf)) []).0 ≡ uploaded.requests
unfolding program
upload_runs = refl

upload_refused :
    (upload working 100 12 "q1" "ani" (some (some (record pdf { filename = "a.txt" }))) []).1
    ≡ fault 400 "invalid_file" "Only PDF files are accepted"
unfolding program
upload_refused = refl

abbrev signed_akta : SignedDocument
signed_akta = record {
  id = "d1";
  request_id = "q1";
  certificate_id = "cert1";
  signed_hash = "hash";
  signed_path = "signed_Akta.PDF";
  signed_size = 3;
  pades_level = "PAdES-B-LTA";
  signature_timestamp = 20;
  created_at = 13;
}

sign_runs : (sign working 13 "d1" "ani" "q1" uploaded).1 ≡ reply 200 signed_akta
unfolding program
sign_runs = refl

-- A signed document can be read and downloaded by its owner alone.
reads :
    let t = (sign working 13 "d1" "ani" "q1" uploaded).0 in
    ((download working "ani" "q1" t).0 ≡ reply 200 (1 ∷ 2 ∷ []))
    × ((download working "budi" "q1" t).0 ≡ fault 403 "forbidden" "Access denied")
    × (get_status "ani" "q1" uploaded ≡ reply 200 (akta, none))
    × ((sign working 200 "d1" "ani" "q1" uploaded).1
        ≡ fault 410 "expired" "Signing request has expired")
unfolding program
reads = (refl, refl, refl, refl)

first_certificate : CertReach authority [] one_cert
unfolding program
first_certificate = CertLife.next CertLife.here (requesting 10 "cert1" "ani" (some "") refl)

CertReach-IsOneActive_example : active_count "ani" one_cert ≤ 1
CertReach-IsOneActive_example = CertReach-IsOneActive authority first_certificate "ani"

sign_cases_example :
    IsRefusal uploaded (sign working 13 "d1" "ani" "q1" uploaded)
    ⊎ IsFailure 13 "ani" "q1" uploaded (sign working 13 "d1" "ani" "q1" uploaded)
    ⊎ IsSigned 13 "ani" "q1" uploaded (sign working 13 "d1" "ani" "q1" uploaded)
sign_cases_example = sign_cases working 13 "d1" "ani" "q1" uploaded

abbrev fresh_state : SignState
fresh_state = record {
  certs = one_cert;
  requests = [];
  documents = record { docs = []; by_id = [] };
}

fresh_state-IsConsistent : IsConsistent fresh_state
unfolding lookup
fresh_state-IsConsistent id = neither refl (λ x p. absurd (ground (arith, p)))

upload_step : SignReach fresh_state uploaded
unfolding program
upload_step = next here (uploading working 100 12 "q1" "ani" (some (some pdf)) refl)

SignReach-IsConsistent_example : IsConsistent uploaded
SignReach-IsConsistent_example = SignReach-IsConsistent fresh_state-IsConsistent upload_step

sign_once_example :
    let t = (sign working 13 "d1" "ani" "q1" uploaded).0 in
    (is_fault (sign working 14 "d2" "ani" "q1" t).1 ≡ true)
    × (lookup "q1" (sign working 14 "d2" "ani" "q1" t).0.documents.docs ≡ some signed_akta)
sign_once_example =
    sign_once working working 13 14 "d1" "d2" "ani" "ani" "q1" uploaded signed_akta sign_runs here

sign_progress_example : (sign working 13 "d1" "ani" "q1" uploaded).1 ≡ reply 200 signed_akta
unfolding program
sign_progress_example =
    sign_progress working 13 "d1" "ani" "q1" uploaded akta ani_cert (1 ∷ 2 ∷ [])
      (record {
        signed_document_base64 = "AQI=";
        signature_timestamp = "2026";
        pades_level = "PAdES-B-LTA";
      })
      (record signed_akta { id = ""; created_at = 0 }) SignReach-IsConsistent_example refl refl refl
      refl
