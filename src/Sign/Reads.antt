-- ===== src/Sign/Reads.antt =====
-- services/garudasign/handler/document.go: the status of a signing request, and the download of the
-- signed document.
use gpass.Prelude.{
  String, not, Option, none, some, List, [], ◌∷◌, ◌==◌, if◌then◌else◌, ok, err, Reply, reply, fault,
}
use gpass.Sign.Requests.{SigningRequest, SignedDocument, get_by_request_id}
use gpass.Sign.Documents.{
  Bytes, Loaded, not_opened, not_read, read, Outside, SignState, refusal, owned_request,
}
use gpass.Sign.Issue.{AuditEvent}

-- The request, with its document once it is completed.
unfoldable pub get_status :
    String → String → SignState → Reply (SigningRequest × Option SignedDocument)
get_status user_id request_id s = elim (owned_request user_id request_id s.requests) [
  | err f ↦ refusal f
  | ok r ↦ reply 200 (
    r,
    if r.status == "COMPLETED"
        then elim (get_by_request_id request_id s.documents) [ err _ ↦ none | ok d ↦ some d ]
        else none,
  )
]

abbrev pub downloaded : String → String → SignedDocument → AuditEvent
downloaded user_id request_id d = record {
  user_id = user_id;
  action = "DOC_DOWNLOADED";
  metadata = ("request_id", request_id) ∷ ("document_id", d.id) ∷ [];
}

-- The end of `Download`. The error of `io.Copy` is dropped: what a failing read has sent is taken
-- to be nothing.
unfoldable pub send : String → String → SignedDocument → Loaded → Reply Bytes × List AuditEvent
send user_id request_id d not_opened =
    (fault 500 "internal_error" "Failed to load signed document", [])
send user_id request_id d not_read = (reply 200 [], downloaded user_id request_id d ∷ [])
send user_id request_id d (read bytes) = (reply 200 bytes, downloaded user_id request_id d ∷ [])

-- The bytes of the signed document, which are sent on.
unfoldable pub download : Outside → String → String → SignState → Reply Bytes × List AuditEvent
download out user_id request_id s = elim (owned_request user_id request_id s.requests) [
  | err f ↦ (refusal f, [])
  | ok r ↦
      if not (r.status == "COMPLETED")
      then (fault 400 "not_completed" "Document signing is not completed", [])
      else elim (get_by_request_id request_id s.documents) [
        | err _ ↦ (fault 404 "not_found" "Signed document not found", [])
        | ok d ↦ send user_id request_id d (out.load d.signed_path)
      ]
]
