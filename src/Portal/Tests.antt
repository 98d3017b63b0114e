-- ===== src/Portal/Tests.antt =====
-- Runs of the key handlers and the validator of services/garudaportal, and their theorems at
-- concrete inputs.
use gpass.Prelude.{
  length, select, find_first, lookup, insert, values, pos, ltb_ℤ, mul64, add_time, ◌≡◌, refl, ◌↔◌,
  Bool, true, false, none, some, List, [], ◌∷◌, ◌==◌, if◌then◌else◌, ok, reply, fault,
}
use gpass.Portal.Generate.{Entropy, env_prefix, generate_key}
use gpass.Portal.Keys.{
  ApiKey, KeyStore, key_stamped, create_key, get_key, get_by_hash, list_by_app, key_revoked,
  revoke_key, update_last_used, App, AppStore, get_app,
}
use gpass.Portal.Manage.{
  expiry, fresh_key, create_for, create_app_key, list_keys, revoke_app_key, rotate_for, rotate_key,
}
use gpass.Portal.Validation.{Gate, rejected, accepted, is_expired, admit, validate}
use gpass.Portal.Admission.{validate_iff, IsAdmitted}
use gpass.Portal.Apps.{
  AppUpdate, create_app, list_by_owner, update_app, CreateAppRequest, handle_create_app,
  handle_list_apps, handle_get_app, handle_update_app,
}
use gpass.Portal.AppLife.{app_requested, app_edited, AppReach, start, next}
use gpass.Portal.Usage.{UsageKey, increment, get_daily_usage, endpoint_loop, get_usage_by_endpoint}
use gpass.Portal.Endpoint.{metered, touch, validate_key}
use gpass.Portal.Metering.{increment_all, is_call_of, validate_key-metered}

program : Unit {0}
unfolding env_prefix generate_key create_key get_key get_by_hash list_by_app revoke_key
    update_last_used get_app expiry create_for create_app_key list_keys revoke_app_key rotate_for
    rotate_key is_expired admit validate lookup insert values select find_first mul64 add_time
    create_app list_by_owner update_app handle_create_app handle_list_apps handle_get_app
    handle_update_app increment get_daily_usage endpoint_loop get_usage_by_endpoint increment_all
    validate_key touch
program = tt

abbrev shop : App
shop = record {
  id = "a1";
  owner_user_id = "ani";
  name = "Shop";
  description = "";
  environment = "sandbox";
  tier = "free";
  daily_limit = pos 100;
  callback_urls = [];
  oauth_client_id = "";
  status = "ACTIVE";
  created_at = 1;
  updated_at = 1;
}

abbrev apps : AppStore
apps = ("a1", shop) ∷ ("a2", record shop { id = "a2"; owner_user_id = "budi" }) ∷ []

abbrev draw : Entropy
draw = record {
  encoded = some "0123456789";
  hash_key = λ key. if key == "gp_test_0123456789" then "hash_x" else "other";
}

abbrev created : ApiKey
created =
    key_stamped 5 "k1"
      (fresh_key "a1" "hash_x" "gp_test_01234567" "Default" "sandbox" (some 86400000000005))

abbrev keys : KeyStore
keys = ("k1", created) ∷ []

abbrev gate : Gate
gate = record { hash_key = draw.hash_key; daily_count = λ app. some 3 }

key_runs :
    (create_app_key draw 5 "k1" "ani" "a1"
        (some (record { name = ""; expires_in_days = some (pos 1) }))
        apps
        []
      ≡ (keys, reply 201 (created, "gp_test_0123456789")))
    × (list_keys "ani" "a1" apps keys ≡ reply 200 (created ∷ []))
    × ((revoke_app_key 6 "citra" "a1" "k1" apps keys).1
        ≡ fault 403 "forbidden" "You do not own this app")
    × (update_last_used 7 "k1" keys ≡ ok (("k1", record created { last_used_at = some 7 }) ∷ []))
unfolding program
key_runs = (refl, refl, refl, refl)

validate_runs :
    (validate gate 6 "gp_test_0123456789" apps keys ≡ some (accepted created shop))
    × (validate gate 86400000000006 "gp_test_0123456789" apps keys ≡ rejected "key_expired")
    × (validate gate 6 "gp_test_0123456789" apps (("k1", key_revoked 6 created) ∷ [])
        ≡ rejected "key_revoked")
    × (validate gate 6 "gp_test_y" apps keys ≡ rejected "invalid_key")
unfolding program
validate_runs = (refl, refl, refl, refl)

validate_iff_example :
    ((validate gate 6 "gp_test_0123456789" apps keys ≡ some (accepted created shop))
      × ((accepted created shop).valid ≡ true))
    ↔ IsAdmitted gate 6 "gp_test_0123456789" apps keys (accepted created shop)
validate_iff_example = validate_iff gate 6 "gp_test_0123456789" apps keys (accepted created shop)

abbrev asked : CreateAppRequest
asked = record { name = "Till"; description = ""; callback_urls = [] }

abbrev renaming : AppUpdate
renaming = record { name = some "Shop"; description = none; callback_urls = none }

abbrev first_apps : AppStore
first_apps = (handle_create_app 1 "a9" "ani" (some asked) []).0

started : AppReach [] first_apps
unfolding lookup
started = next start (app_requested 1 "a9" "ani" (some asked) refl)

edited : AppReach first_apps (handle_update_app 2 "ani" "a9" (some renaming) first_apps).0
edited = next start (app_edited 2 "ani" "a9" (some renaming))

abbrev one_call : List (UsageKey × Bool)
one_call = (record { app_id = "a1"; date = "2026-01-02"; endpoint = "/v1/person" }, false) ∷ []

metered_answer :
    (validate_key
      (metered draw.hash_key "2026-01-02" (increment_all one_call []))
      6
      (some "gp_test_0123456789")
      apps
      keys).1
    ≡ reply 200 (accepted created shop)
unfolding program
metered_answer = refl

validate_key-metered_example :
    (key : ApiKey) × (app : App) × (get_by_hash (draw.hash_key "gp_test_0123456789") keys ≡ ok key)
    × (get_app key.app_id apps ≡ ok app)
    × (ltb_ℤ (pos (length (select (is_call_of key.app_id "2026-01-02") one_call))) app.daily_limit
        ≡ true)
validate_key-metered_example =
    validate_key-metered draw.hash_key "2026-01-02" 6 "gp_test_0123456789" apps keys one_call
      (accepted created shop) metered_answer
