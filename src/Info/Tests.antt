-- ===== src/Info/Tests.antt =====
-- Runs of services/garudainfo, and its theorems at concrete inputs.
use gpass.Prelude.{
  one_of, contains_any, select, any_of, Dict, lookup, insert, values, update_all, pos, mul64,
  add_time, ◌+◌, ◌*◌, ◌^◌, String, ◌≡◌, refl, ◌↔◌, true, none, some, [], ◌∷◌, ok, reply, fault,
}
use gpass.Info.Validate.{
  Consent, allowed_field_keys, bounded, require_bounded, check_key, check_fields, validate_consent,
}
use gpass.Info.Acceptable.{IsAcceptable, validate_consent_iff}
use gpass.Info.Consents.{
  Store, second, create, get_by_id, list_by_user, list_active_by_user_and_client, revoked, revoke,
  expire_stale,
}
use gpass.Info.Grants.{
  GrantRequest, field_map, requested, grant, list, revoke_consent, FieldValue, get_person,
}
use gpass.Info.Lifecycle.{IsSoundStore, granting, expiring, Reach, here, next, Reach-IsSoundStore}
use gpass.Info.Disclosure.{disclosed_allowed, revoke_consent-blocks-get_person}

program : Unit {0}
unfolding validate_consent require_bounded bounded check_key check_fields create get_by_id revoke
    expire_stale grant requested revoke_consent get_person list list_by_user
    list_active_by_user_and_client lookup insert values update_all select any_of contains_any one_of
    mul64 add_time field_map
program = tt

abbrev request : GrantRequest
request = record {
  user_id = "u1";
  client_id = "bank";
  client_name = "Bank";
  purpose = "kyc";
  fields = "name" ∷ "dob" ∷ [];
  duration_days = pos 30;
}

abbrev asked : Consent
asked = record {
  id = "";
  user_id = "u1";
  client_id = "bank";
  client_name = "Bank";
  purpose = "kyc";
  fields = ("name", true) ∷ ("dob", true) ∷ [];
  duration_seconds = pos 2_592_000;
  granted_at = 0;
  expires_at = 0;
  revoked_at = none;
  status = "";
}

abbrev held_consent : Consent
held_consent = record asked {
  id = "c1";
  granted_at = 1000;
  expires_at = 1000 + 2_592_000 * second;
  status = "ACTIVE";
}

abbrev one : Store
one = ("c1", held_consent) ∷ []

abbrev known : String → Dict FieldValue
known user =
    ("name", record { value = "Siti"; source = "dukcapil"; last_verified = "2026" })
    ∷ ("phone", record { value = "0812"; source = "dukcapil"; last_verified = "2026" })
    ∷ []

-- A grant for thirty days.
grant_runs : grant 1000 "c1" (some request) [] ≡ (one, reply 201 ("c1", 1000 + 2_592_000 * second))
unfolding program
grant_runs = refl

-- Only the granted field that the source knows is disclosed.
get_person_runs :
    get_person known "c1" one
    ≡ reply 200
        (("name", record { value = "Siti"; source = "dukcapil"; last_verified = "2026" }) ∷ [])
unfolding program
get_person_runs = refl

-- What the guards answer.
refusals :
    (grant 1000 "c1" none [] ≡ ([], fault 400 "invalid_request" "invalid JSON body"))
    × (grant 1000 "c1" (some (record request { fields = "salary" ∷ [] })) []
        ≡ ([], fault 500 "internal_error" "failed to create consent"))
    × ((revoke_consent 5 "c2" one).1 ≡ fault 404 "not_found" "consent not found")
unfolding program
refusals = (refl, refl, refl)

lists :
    (list "u1" one ≡ reply 200 (held_consent ∷ []))
    × (list_active_by_user_and_client "u1" "bank" one ≡ held_consent ∷ [])
    × (list_active_by_user_and_client "u1" "shop" one ≡ [])
unfolding program
lists = (refl, refl, refl)

-- 2^57 + 1 days are accepted, and last one day.
huge_request :
    (requested (record request { duration_days = pos (1 + 1 * 2 ^ 57) })).duration_seconds
    ≡ pos 86400
unfolding program
huge_request = refl

first_grant : Reach [] one
unfolding program
first_grant = next here (granting 1000 "c1" (some request) refl)

validate_consent_iff_example : (validate_consent asked ≡ ok tt) ↔ IsAcceptable asked
validate_consent_iff_example = validate_consent_iff asked

Reach-IsSoundStore_example : IsSoundStore one
Reach-IsSoundStore_example = Reach-IsSoundStore first_grant

abbrev disclosed : Dict FieldValue
disclosed = ("name", record { value = "Siti"; source = "dukcapil"; last_verified = "2026" }) ∷ []

disclosed_allowed_example : one_of allowed_field_keys "name" ≡ true
unfolding lookup
disclosed_allowed_example =
    disclosed_allowed known "c1" disclosed "name"
      (record { value = "Siti"; source = "dukcapil"; last_verified = "2026" }) first_grant
      get_person_runs refl

abbrev one_revoked : Store
one_revoked = ("c1", revoked 2000 held_consent) ∷ []

revoke_runs : revoke_consent 2000 "c1" one ≡ (one_revoked, reply 200 tt)
unfolding program
revoke_runs = refl

revoke_consent-blocks-get_person_example :
    get_person known "c1" (expire_stale 9000 one_revoked).1
    ≡ fault 403 "consent_inactive" "consent is not active"
revoke_consent-blocks-get_person_example =
    revoke_consent-blocks-get_person known "c1" 2000 one revoke_runs (next here (expiring 9000))
