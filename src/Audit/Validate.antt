-- ===== src/Audit/Validate.antt =====
-- services/garudaaudit/store/validate.go, with the `AuditEvent` record of store/event.go.
use gpass.Prelude.{
  rune_count, one_of, contains_any, length, Dict, ℕ, String, not, List, [], ◌∷◌, ◌==◌, ltb, ok,
  ◌>>◌, reject, Check,
}

-- Times are nanoseconds since Go's zero time. A nil map of metadata is an empty one.
pub record AuditEvent : Type 0 where
  pub id : String
  pub event_type : String
  pub actor_id : String
  pub actor_type : String
  pub resource_id : String
  pub resource_type : String
  pub action : String
  pub metadata : Dict String
  pub ip_address : String
  pub user_agent : String
  pub service_name : String
  pub request_id : String
  pub status : String
  pub created_at : ℕ

-- The error texts of the validator, by what they say.
pub data EventFault : Type 0 where
  is_required has_null_bytes : String → EventFault
  exceeds : String → ℕ → EventFault
  unknown_actor_type unknown_status : String → EventFault
  too_many_keys : ℕ → EventFault
  empty_key : EventFault
  key_too_long value_too_long control_characters : String → EventFault

abbrev pub allowed_actor_types : List String
allowed_actor_types = "" ∷ "USER" ∷ "SERVICE" ∷ "SERVICE_ACCOUNT" ∷ "SYSTEM" ∷ "ADMIN" ∷ []

abbrev pub allowed_statuses : List String
allowed_statuses = "" ∷ "SUCCESS" ∷ "FAILURE" ∷ "DENIED" ∷ "ERROR" ∷ []

abbrev pub max_metadata_keys : ℕ
max_metadata_keys = 50

abbrev pub max_metadata_key_len : ℕ
max_metadata_key_len = 64

abbrev pub max_metadata_value_len : ℕ
max_metadata_value_len = 1024

unfoldable pub text_bounded : String → String → ℕ → Check EventFault
text_bounded name v max = do
  reject (ltb max (rune_count v)) (exceeds name max)
  reject (contains_any (0 ∷ []) v) (has_null_bytes name)

unfoldable pub text_required : String → String → ℕ → Check EventFault
text_required name v max = do reject (v == "") (is_required name); text_bounded name v max

-- the body of the loop over the metadata; the last test looks for a null byte or a line break
unfoldable pub check_entry : String → String → Check EventFault
check_entry k v = do
  reject (k == "") empty_key
  reject (ltb max_metadata_key_len (rune_count k)) (key_too_long k)
  reject (ltb max_metadata_value_len (rune_count v)) (value_too_long k)
  reject (contains_any (0 ∷ 10 ∷ 13 ∷ []) k) (control_characters k)

unfoldable pub check_metadata : Dict String → Check EventFault
check_metadata [] = ok tt
check_metadata ((k, v) ∷ m) = do check_entry k v; check_metadata m

unfoldable pub validate_event : AuditEvent → Check EventFault
validate_event e = do
  text_required "event_type" e.event_type 64
  text_required "actor_id" e.actor_id 128
  text_required "action" e.action 64
  text_bounded "actor_type" e.actor_type 32
  reject (not (one_of allowed_actor_types e.actor_type)) (unknown_actor_type e.actor_type)
  text_bounded "resource_id" e.resource_id 128
  text_bounded "resource_type" e.resource_type 64
  text_bounded "ip_address" e.ip_address 45
  text_bounded "user_agent" e.user_agent 512
  text_bounded "service_name" e.service_name 64
  text_bounded "request_id" e.request_id 128
  text_bounded "status" e.status 32
  reject (not (one_of allowed_statuses e.status)) (unknown_status e.status)
  reject (ltb max_metadata_keys (length e.metadata)) (too_many_keys (length e.metadata))
  check_metadata e.metadata
