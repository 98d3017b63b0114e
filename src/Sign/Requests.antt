-- ===== src/Sign/Requests.antt =====
-- services/garudasign/store/request.go and store/document.go, with their records of
-- signing/types.go: the in-memory stores of signing requests and of signed documents.
use gpass.Prelude.{
  select, Dict, lookup, insert, values, ℕ, String, not, none, some, List, ◌==◌, if◌then◌else◌,
  Result, ok, err,
}

pub record SigningRequest : Type 0 where
  pub id : String
  pub user_id : String
  pub certificate_id : String
  pub document_name : String
  pub document_size : ℕ
  pub document_hash : String
  pub document_path : String
  pub status : String
  pub error_message : String
  pub expires_at : ℕ
  pub created_at : ℕ
  pub updated_at : ℕ

pub record SignedDocument : Type 0 where
  pub id : String
  pub request_id : String
  pub certificate_id : String
  pub signed_hash : String
  pub signed_path : String
  pub signed_size : ℕ
  pub pades_level : String
  pub signature_timestamp : ℕ
  pub created_at : ℕ

abbrev pub RequestStore : Type 0
RequestStore = Dict SigningRequest

-- the two maps of the document store: by the request's id, and by the document's own
pub record DocumentStore : Type 0 where
  pub docs : Dict SignedDocument
  pub by_id : Dict SignedDocument

pub data SignStoreError : Type 0 where
  request_not_found document_exists document_not_found : String → SignStoreError

abbrev pub request_stamped : ℕ → String → SigningRequest → SigningRequest
request_stamped now id r = record r { id = id; created_at = now; updated_at = now }

unfoldable pub create_request :
    ℕ → String → SigningRequest → RequestStore → SigningRequest × RequestStore
create_request now id r s = (request_stamped now id r, insert id (request_stamped now id r) s)

unfoldable pub get_request : String → RequestStore → Result SignStoreError SigningRequest
get_request id s = elim (lookup id s) [ none ↦ err (request_not_found id) | some r ↦ ok r ]

unfoldable pub list_requests : String → RequestStore → List SigningRequest
list_requests user_id s = select (λ r. r.user_id == user_id) (values s)

abbrev pub request_moved : ℕ → String → String → String → SigningRequest → SigningRequest
request_moved now status certificate_id error_message r = record r {
  status = status;
  certificate_id = if not (certificate_id == "") then certificate_id else r.certificate_id;
  error_message = error_message;
  updated_at = now;
}

unfoldable pub update_request :
    ℕ → String → String → String → String → RequestStore → Result SignStoreError RequestStore
update_request now id status certificate_id error_message s = elim (lookup id s) [
  | none ↦ err (request_not_found id)
  | some r ↦ ok (insert id (request_moved now status certificate_id error_message r) s)
]

abbrev pub doc_stamped : ℕ → String → SignedDocument → SignedDocument
doc_stamped now id d = record d { id = id; created_at = now }

unfoldable pub create_document :
    ℕ
    → String
    → SignedDocument
    → DocumentStore
    → Result SignStoreError (SignedDocument × DocumentStore)
create_document now id d s = elim (lookup d.request_id s.docs) [
  | some _ ↦ err (document_exists d.request_id)
  | none ↦ ok (
    doc_stamped now id d,
    record {
      docs = insert d.request_id (doc_stamped now id d) s.docs;
      by_id = insert id (doc_stamped now id d) s.by_id;
    },
  )
]

unfoldable pub get_by_request_id : String → DocumentStore → Result SignStoreError SignedDocument
get_by_request_id request_id s = elim (lookup request_id s.docs) [
  | none ↦ err (document_not_found request_id)
  | some d ↦ ok d
]
