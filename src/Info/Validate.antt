-- ===== src/Info/Validate.antt =====
-- services/garudainfo/store/validate.go, with the `Consent` record of store/consent.go.
use gpass.Prelude.{
  rune_count, one_of, contains_any, length, Dict, ℤ, pos, ltb_ℤ, ℕ, ◌*◌, String, Bool, true, false,
  not, Option, List, [], ◌∷◌, ◌==◌, ltb, eqb, if◌then◌else◌, Result, ok, ◌>>=◌, ◌>>◌, reject, Check,
}

-- Times are nanoseconds since Go's zero time.
pub record Consent : Type 0 where
  pub id : String
  pub user_id : String
  pub client_id : String
  pub client_name : String
  pub purpose : String
  pub fields : Dict Bool
  pub duration_seconds : ℤ
  pub granted_at : ℕ
  pub expires_at : ℕ
  pub revoked_at : Option ℕ
  pub status : String

-- The error texts of the validator, by what they say.
pub data Invalid : Type 0 where
  is_required exceeds has_null_bytes : String → Invalid
  below_minimum exceeds_maximum : Invalid
  no_fields too_many_fields empty_key nothing_granted : Invalid
  key_too_long key_not_allowed : String → Invalid

abbrev pub max_user_id_len : ℕ
max_user_id_len = 128

abbrev pub max_client_id_len : ℕ
max_client_id_len = 100

abbrev pub max_client_name_len : ℕ
max_client_name_len = 255

abbrev pub max_purpose_len : ℕ
max_purpose_len = 255

abbrev pub max_field_keys : ℕ
max_field_keys = 50

abbrev pub max_field_key_len : ℕ
max_field_key_len = 64

abbrev pub max_duration : ℕ
max_duration = 5 * 365 * 86400

abbrev pub allowed_field_keys : List String
allowed_field_keys =
    "name" ∷ "nik" ∷ "dob" ∷ "birth_place" ∷ "address" ∷ "phone" ∷ "email" ∷ "gender" ∷ "marital"
    ∷ "religion" ∷ "occupation" ∷ "nationality" ∷ "family" ∷ "photo" ∷ "signature" ∷ "biometric"
    ∷ "npwp" ∷ "education" ∷ "blood_type" ∷ []

unfoldable pub bounded : String → String → ℕ → Check Invalid
bounded name v max = do
  reject (ltb max (rune_count v)) (exceeds name)
  reject (contains_any (0 ∷ []) v) (has_null_bytes name)

unfoldable pub require_bounded : String → String → ℕ → Check Invalid
require_bounded name v max = do reject (v == "") (is_required name); bounded name v max

-- the body of the loop over `c.Fields`, before `hasGranted` is touched
unfoldable pub check_key : String → Check Invalid
check_key k = do
  reject (k == "") empty_key
  reject (ltb max_field_key_len (rune_count k)) (key_too_long k)
  reject (not (one_of allowed_field_keys k)) (key_not_allowed k)

-- the loop over `c.Fields`; the flag is `hasGranted`
unfoldable pub check_fields : Bool → Dict Bool → Result Invalid Bool
check_fields granted [] = ok granted
check_fields granted ((k, v) ∷ m) = do check_key k; check_fields (if v then true else granted) m

unfoldable pub validate_consent : Consent → Check Invalid
validate_consent c = do
  require_bounded "user_id" c.user_id max_user_id_len
  require_bounded "client_id" c.client_id max_client_id_len
  require_bounded "client_name" c.client_name max_client_name_len
  require_bounded "purpose" c.purpose max_purpose_len
  reject (ltb_ℤ c.duration_seconds (pos 1)) below_minimum
  reject (ltb_ℤ (pos max_duration) c.duration_seconds) exceeds_maximum
  reject (eqb (length c.fields) 0) no_fields
  reject (ltb max_field_keys (length c.fields)) too_many_fields
  granted ← check_fields false c.fields
  reject (not granted) nothing_granted
