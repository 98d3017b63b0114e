-- ===== src/Sign/Upload.antt =====
-- services/garudasign/handler/document.go: the upload of a document, which opens a signing request.
-- The multipart form is decoded by the standard library: a request is `none` if that fails, and
-- `some none` if the form has no `document`. Storage and hash are parameters.
use gpass.Prelude.{
  codes, same_codes, take, ℕ, ◌+◌, String, Bool, not, ◌&&◌, ◌||◌, Option, none, some, List, [], ◌∷◌,
  map, ◌==◌, leb, if◌then◌else◌, reply, fault,
}
use gpass.Sign.Requests.{SigningRequest, RequestStore, create_request}
use gpass.Sign.Documents.{Bytes, Outside}
use gpass.Sign.Issue.{Outcome}

pub record Upload : Type 0 where
  pub filename : String
  pub size : ℕ
  pub content : Bytes

-- `strings.ToLower` on what decides the suffix: no letter outside ASCII has `p`, `d` or `f` for its
-- lower case
abbrev lower : ℕ → ℕ
lower c = if leb b'A' c && leb c b'Z' then c + 32 else c

-- `strings.HasSuffix`, by trying every position
unfoldable pub has_suffix : List ℕ → List ℕ → Bool
has_suffix suffix [] = same_codes [] suffix
has_suffix suffix (c ∷ s) = same_codes (c ∷ s) suffix || has_suffix suffix s

unfoldable pub is_pdf_name : String → Bool
unfolding has_suffix
is_pdf_name name = has_suffix (codes ".pdf") (map lower (codes name))

-- the first five bytes are there and read `%PDF-`
unfoldable pub has_pdf_magic : Bytes → Bool
has_pdf_magic content = same_codes (take 5 content) (codes "%PDF-")

abbrev pub pending : String → Upload → String → String → ℕ → SigningRequest
pending user_id f hash path expires_at = record {
  id = "";
  user_id = user_id;
  certificate_id = "";
  document_name = f.filename;
  document_size = f.size;
  document_hash = hash;
  document_path = path;
  status = "PENDING";
  error_message = "";
  expires_at = expires_at;
  created_at = 0;
  updated_at = 0;
}

-- the end of `Upload`, for a file that is a PDF
unfoldable pub open_request :
    Outside → ℕ → ℕ → String → String → Upload → RequestStore → Outcome RequestStore SigningRequest
open_request out ttl now id user_id f s = elim (out.compute_hash f.content) [
  | none ↦ (s, fault 500 "internal_error" "Failed to compute hash", [])
  | some hash ↦ elim (out.save f.filename f.content) [
    | none ↦ (s, fault 500 "storage_error" "Failed to save file", [])
    | some path ↦
        let (r, s') = create_request now id (pending user_id f hash path (now + ttl)) s in
        (
          s',
          reply 201 r,
          record {
            user_id = user_id;
            action = "DOC_UPLOADED";
            metadata = ("request_id", r.id) ∷ ("document_name", f.filename) ∷ [];
          }
              ∷ [],
        )
  ]
]

unfoldable pub upload :
    Outside
    → ℕ
    → ℕ
    → String
    → String
    → Option (Option Upload)
    → RequestStore
    → Outcome RequestStore SigningRequest
upload out ttl now id user_id form s =
    if user_id == ""
    then (s, fault 400 "missing_user_id" "X-User-ID header is required", [])
    else elim form [
      | none ↦
          (s, fault 400 "invalid_request" "Failed to parse multipart form or file too large", [])
      | some none ↦ (s, fault 400 "invalid_request" "document field is required", [])
      | some (some f) ↦
          if not (is_pdf_name f.filename)
          then (s, fault 400 "invalid_file" "Only PDF files are accepted", [])
          else if not (has_pdf_magic f.content)
          then (s, fault 400 "invalid_file" "File is not a valid PDF", [])
          else open_request out ttl now id user_id f s
    ]
