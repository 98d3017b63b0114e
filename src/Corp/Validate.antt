-- ===== src/Corp/Validate.antt =====
-- services/garudacorp/store/validate.go: what the Postgres stores test before they write.
use gpass.Prelude.{
  rune_count, one_of, contains_any, length, ℤ, pos, ltb_ℤ, ℕ, String, Bool, not, ◌&&◌, ◌||◌, List,
  [], ◌∷◌, ◌==◌, ltb, ok, ◌>>◌, reject, Check,
}
use gpass.Roles.Roles.{EntityRole}
use gpass.Corp.Entities.{EntityOfficer, EntityShareholder, Entity}
use gpass.Corp.Ubo.{Floats, BeneficialOwner, AnalysisResult}

-- The error texts of the validators, by what they say.
pub data Invalid : Type 0 where
  is_required exceeds has_null_bytes : String → Invalid
  not_allowed : String → String → Invalid
  negative : String → Invalid
  paid_exceeds_authorized : ℤ → ℤ → Invalid
  outside : Invalid
  too_many_entries : ℕ → Invalid
  total_exceeds : Invalid

abbrev pub allowed_entity_types : List String
allowed_entity_types =
    "PT" ∷ "CV" ∷ "YAYASAN" ∷ "KOPERASI" ∷ "FIRMA" ∷ "PERKUMPULAN" ∷ "BUMN" ∷ "BUMD" ∷ []

abbrev pub allowed_entity_statuses : List String
allowed_entity_statuses = "ACTIVE" ∷ "INACTIVE" ∷ "DISSOLVED" ∷ "SUSPENDED" ∷ []

abbrev pub allowed_roles : List String
allowed_roles = "REGISTERED_OFFICER" ∷ "ADMIN" ∷ "USER" ∷ []

abbrev pub allowed_role_statuses : List String
allowed_role_statuses = "ACTIVE" ∷ "REVOKED" ∷ []

abbrev pub allowed_ownership_types : List String
allowed_ownership_types =
    "DIRECT_SHARES" ∷ "INDIRECT_SHARES" ∷ "VOTING_RIGHTS" ∷ "CONTROL" ∷ "OFFICER" ∷ "BENEFICIARY"
    ∷ []

abbrev pub allowed_ubo_statuses : List String
allowed_ubo_statuses = "IDENTIFIED" ∷ "VERIFIED" ∷ "UNVERIFIED" ∷ "NONE_FOUND" ∷ []

unfoldable pub bounded : String → String → ℕ → Check Invalid
bounded name v max = do
  reject (ltb max (rune_count v)) (exceeds name)
  reject (contains_any (0 ∷ []) v) (has_null_bytes name)

unfoldable pub require_bounded : String → String → ℕ → Check Invalid
unfolding bounded
require_bounded name v max = do reject (v == "") (is_required name); bounded name v max

unfoldable pub validate_officer : EntityOfficer → Check Invalid
unfolding require_bounded
validate_officer o = do
  require_bounded "officer.nik_token" o.nik_token 64
  require_bounded "officer.name" o.name 255
  require_bounded "officer.position" o.position 50

-- the loop over the service accesses
unfoldable pub check_accesses : List String → Check Invalid
unfolding require_bounded
check_accesses [] = ok tt
check_accesses (sa ∷ sas) = do require_bounded "service_access[i]" sa 64; check_accesses sas

unfoldable pub validate_role : EntityRole → Check Invalid
unfolding require_bounded check_accesses
validate_role r = do
  require_bounded "entity_id" r.entity_id 128
  require_bounded "user_id" r.user_id 128
  reject (not (one_of allowed_roles r.role)) (not_allowed "role" r.role)
  reject (not (r.status == "") && not (one_of allowed_role_statuses r.status))
      (not_allowed "role status" r.status)
  reject (ltb 32 (length r.service_access)) (too_many_entries (length r.service_access))
  check_accesses r.service_access

module _ {F : Type 0} where
  unfoldable pub validate_entity : Entity F → Check Invalid
  unfolding require_bounded bounded
  validate_entity e = do
    require_bounded "ahu_sk_number" e.ahu_sk_number 100
    require_bounded "name" e.name 500
    reject (not (one_of allowed_entity_types e.entity_type))
        (not_allowed "entity_type" e.entity_type)
    reject (not (one_of allowed_entity_statuses e.status)) (not_allowed "status" e.status)
    bounded "npwp" e.npwp 20
    bounded "address" e.address 2000
    bounded "oss_nib" e.oss_nib 20
    reject (ltb_ℤ e.capital_auth (pos 0)) (negative "capital_authorized")
    reject (ltb_ℤ e.capital_paid (pos 0)) (negative "capital_paid")
    reject (ltb_ℤ e.capital_auth e.capital_paid && ltb_ℤ (pos 0) e.capital_auth)
        (paid_exceeds_authorized e.capital_paid e.capital_auth)

module _ {F : Type 0} (floats : Floats F) where
  -- `p < 0 || p > 100`
  abbrev pub off_scale : F → Bool
  off_scale p = floats.above floats.nought p || floats.above p floats.hundred

  unfoldable pub validate_shareholder : EntityShareholder F → Check Invalid
  unfolding require_bounded bounded
  validate_shareholder s = do
    require_bounded "shareholder.name" s.name 255
    bounded "shareholder.share_type" s.share_type 50
    reject (ltb_ℤ s.shares (pos 0)) (negative "shareholder.shares")
    reject (off_scale s.percentage) outside

  -- the body of the loop over the beneficial owners
  unfoldable pub check_owner : BeneficialOwner F → Check Invalid
  unfolding require_bounded
  check_owner bo = do
    require_bounded "ubo.name" bo.name 255
    require_bounded "ubo.nik_token" bo.nik_token 64
    reject (not (one_of allowed_ownership_types bo.ownership_type))
        (not_allowed "ownership_type" bo.ownership_type)
    reject (off_scale bo.percentage) outside

  -- the loop over the beneficial owners, with the total so far
  unfoldable pub check_owners : F → List (BeneficialOwner F) → Check Invalid
  unfolding check_owner
  check_owners total [] = reject (floats.above total floats.tolerated) total_exceeds
  check_owners total (bo ∷ bos) = do
    check_owner bo
    check_owners (floats.plus total bo.percentage) bos

  unfoldable pub validate_ubo_result : AnalysisResult F → Check Invalid
  unfolding require_bounded check_owners
  validate_ubo_result r = do
    require_bounded "entity_id" r.entity_id 128
    require_bounded "entity_name" r.entity_name 500
    reject (r.criteria == "") (is_required "criteria")
    reject (not (one_of allowed_ubo_statuses r.status)) (not_allowed "ubo status" r.status)
    check_owners floats.nought r.beneficial_owners
