-- ===== src/Deletion/Requests.antt =====
-- services/identity/store/validate.go and the in-memory store of store/deletion.go. The id that
-- `generateID` draws and the time of a call are arguments; `none` for the id is a failure of the
-- random source. A `nil` slice of categories is `none`.
use gpass.Prelude.{
  rune_count, one_of, contains_any, length, select, Dict, lookup, insert, values, ℕ, String, not,
  Option, none, some, List, [], ◌∷◌, ◌==◌, ltb, Result, ok, err, ◌>>◌, reject, Check,
}

pub record DeletionRequest : Type 0 where
  pub id : String
  pub user_id : String
  pub reason : String
  pub status : String
  pub requested_at : ℕ
  pub completed_at : Option ℕ
  pub deleted_data : Option (List String)

abbrev pub DeletionStore : Type 0
DeletionStore = Dict DeletionRequest

pub data DeletionError : Type 0 where
  user_id_required user_id_exceeds user_id_control invalid_reason : DeletionError
  id_not_generated request_not_found status_not_allowed too_many_categories : DeletionError
  category_empty category_exceeds category_not_allowed : DeletionError

abbrev pub max_deletion_user_id_len : ℕ
max_deletion_user_id_len = 128

abbrev pub max_data_categories : ℕ
max_data_categories = 32

abbrev pub max_category_len : ℕ
max_category_len = 64

abbrev pub valid_reasons : List String
valid_reasons = "user_request" ∷ "consent_revocation" ∷ "retention_expired" ∷ []

abbrev pub allowed_statuses : List String
allowed_statuses = "" ∷ "PENDING" ∷ "PROCESSING" ∷ "COMPLETED" ∷ "FAILED" ∷ []

abbrev pub allowed_data_categories : List String
allowed_data_categories =
    "personal_info" ∷ "biometric" ∷ "contact" ∷ "identity" ∷ "financial" ∷ "health" ∷ "location"
    ∷ "family" ∷ "document" ∷ "signature" ∷ "audit_trail" ∷ "consent_history" ∷ "behavioral"
    ∷ "device" ∷ "session" ∷ []

-- a null byte, a line feed or a carriage return
abbrev pub control_codes : List ℕ
control_codes = 0 ∷ 10 ∷ 13 ∷ []

unfoldable pub validate_deletion_request : DeletionRequest → Check DeletionError
validate_deletion_request r = do
  reject (r.user_id == "") user_id_required
  reject (ltb max_deletion_user_id_len (rune_count r.user_id)) user_id_exceeds
  reject (contains_any control_codes r.user_id) user_id_control
  reject (not (one_of valid_reasons r.reason)) invalid_reason

unfoldable pub check_categories : List String → Check DeletionError
check_categories [] = ok tt
check_categories (c ∷ cs) = do
  reject (c == "") category_empty
  reject (ltb max_category_len (rune_count c)) category_exceeds
  reject (not (one_of allowed_data_categories c)) category_not_allowed
  check_categories cs

abbrev pub categories : Option (List String) → List String
categories none = []
categories (some cs) = cs

unfoldable pub validate_status_update : String → Option (List String) → Check DeletionError
unfolding check_categories
validate_status_update status deleted = do
  reject (not (one_of allowed_statuses status)) status_not_allowed
  reject (ltb max_data_categories (length (categories deleted))) too_many_categories
  check_categories (categories deleted)

abbrev pub deletion_stamped : ℕ → String → DeletionRequest → DeletionRequest
deletion_stamped now id r = record r { id = id; status = "PENDING"; requested_at = now }

unfoldable pub create_deletion :
    ℕ
    → Option String
    → DeletionRequest
    → DeletionStore
    → Result DeletionError (DeletionRequest × DeletionStore)
unfolding validate_deletion_request
create_deletion now drawn r s = elim (validate_deletion_request r) [
  | err e ↦ err e
  | ok _ ↦ elim drawn [
    | none ↦ err id_not_generated
    | some id ↦ ok (deletion_stamped now id r, insert id (deletion_stamped now id r) s)
  ]
]

unfoldable pub get_deletion : String → DeletionStore → Result DeletionError DeletionRequest
get_deletion id s = elim (lookup id s) [ none ↦ err request_not_found | some r ↦ ok r ]

unfoldable pub list_deletions_by_user : String → DeletionStore → List DeletionRequest
list_deletions_by_user user_id s = select (λ r. r.user_id == user_id) (values s)

abbrev pub or_kept {ℓ} : {A : Type ℓ} → Option A → Option A → Option A
or_kept none held = held
or_kept (some new) held = some new

unfoldable pub update_deletion :
    String
    → String
    → Option ℕ
    → Option (List String)
    → DeletionStore
    → Result DeletionError DeletionStore
unfolding validate_status_update
update_deletion id status completed_at deleted s = elim (validate_status_update status deleted) [
  | err e ↦ err e
  | ok _ ↦ elim (lookup id s) [
    | none ↦ err request_not_found
    | some r ↦ ok (
        insert id
          (record r {
            status = status;
            completed_at = or_kept completed_at r.completed_at;
            deleted_data = or_kept deleted r.deleted_data;
          })
          s)
  ]
]
