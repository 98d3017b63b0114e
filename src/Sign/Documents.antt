-- ===== src/Sign/Documents.antt =====
-- services/garudasign/handler/document.go: signing a document. The
-- file storage, the signing backend, base64, SHA-256 and the reading of time stamps are
-- parameters; one call happens at one instant, `now`.
use gpass.Prelude.{
  concat, length, ℕ, String, not, Option, none, some, List, [], ◌∷◌, ◌==◌, ltb, if◌then◌else◌,
  Result, ok, err, ◌>>=◌, Reply, reply, fault,
}
use gpass.Sign.Certificates.{Certificate, CertStore, get_active_by_user}
use gpass.Sign.Requests.{
  SigningRequest, SignedDocument, RequestStore, DocumentStore, get_request, update_request,
  create_document,
}
use gpass.Sign.Issue.{AuditEvent, Outcome}

abbrev pub Bytes : Type 0
Bytes = List ℕ

pub record SignRequest : Type 0 where
  pub document_base64 : String
  pub certificate_pem : String
  pub signature_level : String

pub record SignResponse : Type 0 where
  pub signed_document_base64 : String
  pub signature_timestamp : String
  pub pades_level : String

-- `FileStorage.Load` and the read that follows it
pub data Loaded : Type 0 where
  not_opened not_read : Loaded
  read : Bytes → Loaded

pub record Outside : Type 0 where
  pub load : String → Loaded
  pub save : String → Bytes → Option String
  pub sign_document : SignRequest → Result String SignResponse
  pub encode64 : Bytes → String
  pub decode64 : String → Option Bytes
  pub compute_hash : Bytes → Option String
  pub parse_time : String → ℕ

pub record SignState : Type 0 where
  pub certs : CertStore
  pub requests : RequestStore
  pub documents : DocumentStore

-- the arguments of `writeError`
pub record Fault : Type 0 where
  pub status : ℕ
  pub code : String
  pub message : String

abbrev pub refusal : {A : Type 0} → Fault → Reply A
refusal f = fault f.status f.code f.message

abbrev pub deny : {A : Type 0} → ℕ → String → String → Result Fault A
deny status code message = err (record { status = status; code = code; message = message })

-- the guards that `Sign`, `GetStatus` and `Download` begin with
unfoldable pub owned_request : String → String → RequestStore → Result Fault SigningRequest
owned_request user_id request_id s =
    if user_id == ""
    then deny 400 "missing_user_id" "X-User-ID header is required"
    else if request_id == ""
    then deny 400 "invalid_request" "Request ID is required"
    else elim (get_request request_id s) [
      | err _ ↦ deny 404 "not_found" "Signing request not found"
      | ok r ↦ if not (r.user_id == user_id) then deny 403 "forbidden" "Access denied" else ok r
    ]

-- the guards of `Sign` on a request of the caller's, up to the certificate
unfoldable pub guarded :
    ℕ → String → SignState → SigningRequest → Result Fault (SigningRequest × Certificate)
guarded now user_id s r =
    if ltb r.expires_at now
    then deny 410 "expired" "Signing request has expired"
    else if r.status == "COMPLETED"
    then deny 409 "already_signed" "Document has already been signed"
    else elim (get_active_by_user user_id s.certs) [
      | err _ ↦ deny 400 "no_certificate" "No active certificate found"
      | ok c ↦ ok (r, c)
    ]

unfoldable pub ready : ℕ → String → String → SignState → Result Fault (SigningRequest × Certificate)
ready now user_id request_id s = do
  r ← owned_request user_id request_id s.requests
  guarded now user_id s r

unfoldable pub load_document : Outside → String → Result Fault Bytes
load_document out path = elim (out.load path) [
  | not_opened ↦ deny 500 "internal_error" "Failed to load document"
  | not_read ↦ deny 500 "internal_error" "Failed to read document"
  | read bytes ↦ ok bytes
]

-- the signed bytes are decoded, saved and hashed: the new document, but for what the store sets
unfoldable pub packed :
    Outside → SigningRequest → String → Certificate → SignResponse → Result Fault SignedDocument
packed out r request_id c resp = elim (out.decode64 resp.signed_document_base64) [
  | none ↦ deny 500 "internal_error" "Failed to process signed document"
  | some bytes ↦ elim (out.save (concat "signed_" r.document_name) bytes) [
    | none ↦ deny 500 "storage_error" "Failed to save signed document"
    | some path ↦ elim (out.compute_hash bytes) [
      | none ↦ deny 500 "internal_error" "Failed to compute hash"
      | some hash ↦ ok (record {
        id = "";
        request_id = request_id;
        certificate_id = c.id;
        signed_hash = hash;
        signed_path = path;
        signed_size = length bytes;
        pades_level = resp.pades_level;
        signature_timestamp = out.parse_time resp.signature_timestamp;
        created_at = 0;
      })
    ]
  ]
]

-- `UpdateStatus`, with its error ignored
unfoldable pub moved : ℕ → String → String → String → String → SignState → SignState
moved now id status certificate_id message s =
    elim (update_request now id status certificate_id message s.requests) [
      | err _ ↦ s
      | ok requests ↦ record s { requests = requests }
    ]

-- the end of `Sign`: the document is stored and the request completed
unfoldable pub complete :
    ℕ → String → String → String → SignedDocument → SignState → Outcome SignState SignedDocument
complete now doc_id user_id request_id d s = elim (create_document now doc_id d s.documents) [
  | err _ ↦ (s, fault 500 "internal_error" "Failed to store signed document", [])
  | ok (stored, documents) ↦ (
    moved now request_id "COMPLETED" d.certificate_id "" (record s { documents = documents }),
    reply 200 stored,
    record {
      user_id = user_id;
      action = "DOC_SIGNED";
      metadata =
          ("request_id", request_id)
          ∷ ("document_id", stored.id)
          ∷ ("pades_level", d.pades_level)
          ∷ [];
    }
        ∷ [],
  )
]

abbrev pub sign_failure : String → String → String → AuditEvent
sign_failure user_id request_id message = record {
  user_id = user_id;
  action = "SIGN_FAILED";
  metadata = ("request_id", request_id) ∷ ("error", message) ∷ [];
}

abbrev pub to_sign : Outside → Certificate → Bytes → SignRequest
to_sign out c bytes = record {
  document_base64 = out.encode64 bytes;
  certificate_pem = c.certificate_pem;
  signature_level = "PAdES-B-LTA";
}

unfoldable pub sign :
    Outside → ℕ → String → String → String → SignState → Outcome SignState SignedDocument
sign out now doc_id user_id request_id s = elim (ready now user_id request_id s) [
  | err f ↦ (s, refusal f, [])
  | ok (r, c) ↦ elim (load_document out r.document_path) [
    | err f ↦ (s, refusal f, [])
    | ok bytes ↦ elim (out.sign_document (to_sign out c bytes)) [
      | err message ↦ (
        moved now request_id "FAILED" "" message s,
        fault 500 "sign_failed" "Failed to sign document",
        sign_failure user_id request_id message ∷ [],
      )
      | ok resp ↦ elim (packed out r request_id c resp) [
        | err f ↦ (s, refusal f, [])
        | ok d ↦ complete now doc_id user_id request_id d s
      ]
    ]
  ]
]
