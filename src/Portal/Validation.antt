-- ===== src/Portal/Validation.antt =====
-- services/garudaportal/apikey/validator.go, over the stores as handler/validate.go connects them.
-- SHA-256 and the count of an app's calls of the day are parameters.
use gpass.Prelude.{
  ℤ, pos, ltb_ℤ, ℕ, String, Bool, true, false, not, Option, none, some, ◌==◌, ltb, if◌then◌else◌,
  ok, err,
}
use gpass.Portal.Keys.{ApiKey, KeyStore, get_by_hash, App, AppStore, get_app}

pub record Gate : Type 0 where
  pub hash_key : String → String
  pub daily_count : String → Option ℕ

pub record KeyValidationResult : Type 0 where
  pub valid : Bool
  pub app_id : String
  pub environment : String
  pub tier : String
  pub daily_limit : ℤ
  pub error : String

abbrev pub rejected : String → Option KeyValidationResult
rejected error = some (record {
  valid = false;
  app_id = "";
  environment = "";
  tier = "";
  daily_limit = pos 0;
  error = error;
})

abbrev pub accepted : ApiKey → App → KeyValidationResult
accepted k app = record {
  valid = true;
  app_id = k.app_id;
  environment = k.environment;
  tier = app.tier;
  daily_limit = app.daily_limit;
  error = "";
}

unfoldable pub is_expired : ℕ → Option ℕ → Bool
is_expired now none = false
is_expired now (some t) = ltb t now

-- the tests on the app of a key, and on its use; `none` is the error of the usage counter
unfoldable pub admit : Gate → ApiKey → App → Option KeyValidationResult
admit gate k app =
    if not (app.status == "ACTIVE")
    then rejected "app_suspended"
    else elim (gate.daily_count k.app_id) [
      | none ↦ none
      | some n ↦
          if not (ltb_ℤ (pos n) app.daily_limit)
          then rejected "rate_limit_exceeded"
          else some (accepted k app)
    ]

unfoldable pub validate : Gate → ℕ → String → AppStore → KeyStore → Option KeyValidationResult
validate gate now api_key apps keys =
    if api_key == ""
    then rejected "invalid_key"
    else elim (get_by_hash (gate.hash_key api_key) keys) [
      | err _ ↦ rejected "invalid_key"
      | ok k ↦
          if not (k.status == "ACTIVE")
          then rejected "key_revoked"
          else if is_expired now k.expires_at
          then rejected "key_expired"
          else elim (get_app k.app_id apps) [
            | err _ ↦ rejected "invalid_key"
            | ok app ↦ admit gate k app
          ]
    ]
