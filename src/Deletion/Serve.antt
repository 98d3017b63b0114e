-- ===== src/Deletion/Serve.antt =====
-- services/identity/handler/deletion.go. The audit event is emitted after the store is written, and
-- its error is dropped, so it is not part of the result.
use gpass.Prelude.{
  ℕ, String, not, Option, none, some, ◌==◌, if◌then◌else◌, ok, err, Reply, reply, fault,
}
use gpass.Deletion.Requests.{
  DeletionRequest, DeletionStore, DeletionError, invalid_reason, create_deletion, get_deletion,
}

abbrev pub deletion_asked : String → String → DeletionRequest
deletion_asked user_id reason = record {
  id = "";
  user_id = user_id;
  reason = reason;
  status = "";
  requested_at = 0;
  completed_at = none;
  deleted_data = none;
}

pub record DeletionResponse : Type 0 where
  pub id : String
  pub status : String
  pub requested_at : ℕ

abbrev pub deletion_response : DeletionRequest → DeletionResponse
deletion_response r = record { id = r.id; status = r.status; requested_at = r.requested_at }

abbrev pub deletion_fault : DeletionError → Reply DeletionResponse
deletion_fault invalid_reason =
    fault 400 "invalid_reason"
      "Reason must be one of: user_request, consent_revocation, retention_expired"
deletion_fault _ = fault 500 "internal_error" "Failed to create deletion request"

-- The body is the reason, or `none` if it is no JSON.
unfoldable pub request_deletion :
    ℕ
    → Option String
    → String
    → Option String
    → DeletionStore
    → DeletionStore × Reply DeletionResponse
request_deletion now drawn user_id body s =
    if user_id == ""
    then (s, fault 400 "missing_user_id" "X-User-ID header is required")
    else elim body [
      | none ↦ (s, fault 400 "invalid_request" "Invalid JSON body")
      | some reason ↦ elim (create_deletion now drawn (deletion_asked user_id reason) s) [
        | err e ↦ (s, deletion_fault e)
        | ok (r, s') ↦ (s', reply 202 (deletion_response r))
      ]
    ]

-- `deletionStatusResponse` has the fields of the request.
unfoldable pub get_deletion_status : String → String → DeletionStore → Reply DeletionRequest
get_deletion_status user_id id s =
    if user_id == ""
    then fault 400 "missing_user_id" "X-User-ID header is required"
    else if id == ""
    then fault 400 "missing_id" "Deletion request ID is required"
    else elim (get_deletion id s) [
      | err _ ↦ fault 404 "not_found" "Deletion request not found"
      | ok r ↦
          if not (r.user_id == user_id)
          then fault 403 "forbidden" "You do not have access to this deletion request"
          else reply 200 r
    ]
