-- ===== src/Info/Grants.antt =====
-- services/garudainfo/handler/consent.go and handler/person.go: granting and revoking a consent,
-- and reading a person's data under one. A request is its decoded body; `none` is a body that is
-- no JSON. What the upstream sources know of a user (`UserDataProvider`) is a parameter.
use gpass.Prelude.{
  length, Dict, lookup, insert, ℤ, pos, ltb_ℤ, mul64, ℕ, String, Bool, true, not, ◌||◌, Option,
  none, some, List, [], ◌∷◌, ◌==◌, eqb, if◌then◌else◌, ok, err, Reply, reply, fault,
}
use gpass.Info.Validate.{Consent}
use gpass.Info.Consents.{
  Store, StoreError, consent_not_found, consent_revoked, invalid, create, get_by_id, list_by_user,
  revoke,
}

pub record GrantRequest : Type 0 where
  pub user_id : String
  pub client_id : String
  pub client_name : String
  pub purpose : String
  pub fields : List String
  pub duration_days : ℤ

-- `fields[f] = true` for each requested field
unfoldable pub field_map : List String → Dict Bool → Dict Bool
field_map [] m = m
field_map (f ∷ fs) m = field_map fs (insert f true m)

unfoldable pub requested : GrantRequest → Consent
unfolding field_map
requested req = record {
  id = "";
  user_id = req.user_id;
  client_id = req.client_id;
  client_name = req.client_name;
  purpose = req.purpose;
  fields = field_map req.fields [];
  duration_seconds = mul64 req.duration_days 86400;
  granted_at = 0;
  expires_at = 0;
  revoked_at = none;
  status = "";
}

-- the guard of `Grant`
abbrev pub is_incomplete : GrantRequest → Bool
is_incomplete req =
    req.user_id == ""
    || (req.client_id == "" || (eqb (length req.fields) 0 || ltb_ℤ req.duration_days (pos 1)))

-- The new store beside the reply: the consent's id and its expiry.
unfoldable pub grant : ℕ → String → Option GrantRequest → Store → Store × Reply (String × ℕ)
grant now uuid none s = (s, fault 400 "invalid_request" "invalid JSON body")
grant now uuid (some req) s =
    if is_incomplete req
    then (
      s,
      fault 400 "invalid_request" "user_id, client_id, fields, and duration_days are required",
    )
    else elim (create now uuid (requested req) s) [
      | err e ↦ (s, fault 500 "internal_error" "failed to create consent")
      | ok (c, s') ↦ (s', reply 201 (c.id, c.expires_at))
    ]

unfoldable pub list : String → Store → Reply (List Consent)
list user_id s =
    if user_id == ""
    then fault 400 "invalid_request" "user_id query parameter is required"
    else reply 200 (list_by_user user_id s)

unfoldable pub revoke_fault : StoreError → Reply (Unit {0})
revoke_fault consent_not_found = fault 404 "not_found" "consent not found"
revoke_fault consent_revoked = fault 409 "already_revoked" "consent has already been revoked"
revoke_fault (invalid e) = fault 500 "internal_error" "failed to revoke consent"

unfoldable pub revoke_consent : ℕ → String → Store → Store × Reply (Unit {0})
unfolding revoke_fault
revoke_consent now id s =
    if id == ""
    then (s, fault 400 "invalid_request" "consent id is required")
    else elim (revoke now id s) [ err e ↦ (s, revoke_fault e) | ok s' ↦ (s', reply 200 tt) ]

pub record FieldValue : Type 0 where
  pub value : String
  pub source : String
  pub last_verified : String

-- the loop over `consent.Fields`
unfoldable pub filter_fields : Dict FieldValue → Dict Bool → Dict FieldValue → Dict FieldValue
filter_fields known [] filtered = filtered
filter_fields known ((field, granted) ∷ m) filtered = filter_fields known m (
    if granted
    then elim (lookup field known) [ none ↦ filtered | some v ↦ insert field v filtered ]
    else filtered)

unfoldable pub get_person : (String → Dict FieldValue) → String → Store → Reply (Dict FieldValue)
unfolding filter_fields
get_person user_data consent_id s =
    if consent_id == ""
    then fault 400 "invalid_request" "consent_id query parameter is required"
    else elim (get_by_id consent_id s) [
      | err consent_not_found ↦ fault 404 "not_found" "consent not found"
      | err e ↦ fault 500 "internal_error" "failed to look up consent"
      | ok c ↦
          if not (c.status == "ACTIVE")
          then fault 403 "consent_inactive" "consent is not active"
          else reply 200 (filter_fields (user_data c.user_id) c.fields [])
    ]
