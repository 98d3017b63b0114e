-- ===== src/Portal/Endpoint.antt =====
-- services/garudaportal/handler/validate.go: the endpoint that other services ask whether a key is
-- good, over the stores. `today` is the day of the call as a text YYYY-MM-DD.
use gpass.Prelude.{
  pos, ℕ, String, false, not, Option, none, some, ◌==◌, if◌then◌else◌, ok, err, Reply, reply, fault,
}
use gpass.Portal.Keys.{KeyStore, get_by_hash, update_last_used, AppStore}
use gpass.Portal.Validation.{Gate, KeyValidationResult, validate}
use gpass.Portal.Usage.{UsageStore, get_daily_usage}

-- the validator over the usage store
abbrev pub metered : (String → String) → String → UsageStore → Gate
metered hash_key today usage = record {
  hash_key = hash_key;
  daily_count = λ app_id. some (get_daily_usage app_id today usage);
}

-- `key, err := GetByHash(hash)` with the update of the last use, whose error is dropped
unfoldable pub touch : ℕ → String → KeyStore → KeyStore
touch now hash keys = elim (get_by_hash hash keys) [
  | err _ ↦ keys
  | ok k ↦ elim (update_last_used now k.id keys) [ err _ ↦ keys | ok keys' ↦ keys' ]
]

abbrev pub rejected_key : KeyValidationResult
rejected_key = record {
  valid = false;
  app_id = "";
  environment = "";
  tier = "";
  daily_limit = pos 0;
  error = "invalid_key";
}

-- The body is the key, or `none` if it is no JSON.
unfoldable pub validate_key :
    Gate → ℕ → Option String → AppStore → KeyStore → KeyStore × Reply KeyValidationResult
unfolding touch
validate_key gate now none apps keys = (keys, fault 400 "invalid_request" "Invalid JSON body")
validate_key gate now (some api_key) apps keys =
    if api_key == ""
    then (keys, reply 401 rejected_key)
    else elim (validate gate now api_key apps keys) [
      | none ↦ (keys, fault 500 "internal_error" "Validation failed")
      | some result ↦
          if not result.valid
          then (keys, reply (if result.error == "rate_limit_exceeded" then 429 else 401) result)
          else (touch now (gate.hash_key api_key) keys, reply 200 result)
    ]
