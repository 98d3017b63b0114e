-- ===== src/Deletion/Tests.antt =====
-- Runs of the deletion requests of services/identity, and their theorem at concrete inputs.
use gpass.Prelude.{
  one_of, contains_any, select, lookup, insert, values, String, ◌≡◌, refl, true, false, none, some,
  [], ◌∷◌, ◌==◌, err, reply, is_fault,
}
use gpass.Deletion.Requests.{
  DeletionRequest, status_not_allowed, valid_reasons, validate_deletion_request, check_categories,
  validate_status_update, deletion_stamped, create_deletion, get_deletion, list_deletions_by_user,
  update_deletion,
}
use gpass.Deletion.Serve.{deletion_asked, deletion_response, request_deletion, get_deletion_status}
use gpass.Deletion.Private.{request_deletion-private}

program : Unit {0}
unfolding lookup insert values select validate_deletion_request check_categories
    validate_status_update create_deletion get_deletion list_deletions_by_user update_deletion
    request_deletion get_deletion_status one_of contains_any
program = tt

abbrev stored : DeletionRequest
stored = deletion_stamped 7 "d1" (deletion_asked "ani" "user_request")

requested :
    request_deletion 7 (some "d1") "ani" (some "user_request") []
    ≡ (("d1", stored) ∷ [], reply 202 (deletion_response stored))
unfolding program
requested = refl

unknown_status :
    update_deletion "d1" "GONE" none none (("d1", stored) ∷ []) ≡ err status_not_allowed
unfolding program
unknown_status = refl

request_deletion-private_example :
    (r : DeletionRequest) × (deletion_response stored ≡ deletion_response r)
    × (one_of valid_reasons r.reason ≡ true)
    × (r.status ≡ "PENDING")
    × (get_deletion_status "ani" "d1" (("d1", stored) ∷ []) ≡ reply 200 r)
    × (is_fault (get_deletion_status "budi" "d1" (("d1", stored) ∷ [])) ≡ true)
    × ((k : String) → ("d1" == k) ≡ false → lookup k (("d1", stored) ∷ []) ≡ lookup k [])
request_deletion-private_example =
    request_deletion-private 7 "d1" "ani" "budi" (some "user_request") [] (("d1", stored) ∷ [])
      (deletion_response stored) requested refl refl
