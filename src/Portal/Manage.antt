-- ===== src/Portal/Manage.antt =====
-- services/garudaportal/handler/key.go and handler/rotation.go: creating, listing, revoking and
-- rotating the keys of an app. A body is its decoded form; `none` is a body that is no JSON.
use gpass.Prelude.{
  concat, ℤ, pos, ltb_ℤ, mul64, add_time, ℕ, ◌*◌, String, not, Option, none, some, List, ◌==◌,
  if◌then◌else◌, ok, err, Reply, reply, fault,
}
use gpass.Portal.Generate.{Entropy, generate_key}
use gpass.Portal.Keys.{
  ApiKey, KeyStore, create_key, get_key, list_by_app, revoke_key, App, AppStore, get_app,
}

pub record CreateRequest : Type 0 where
  pub name : String
  pub expires_in_days : Option ℤ

abbrev pub day : ℕ
day = 24 * 3_600_000_000_000

-- a positive number of days from now
unfoldable pub expiry : ℕ → Option ℤ → Option ℕ
expiry now none = none
expiry now (some days) = if ltb_ℤ (pos 0) days then some (add_time now (mul64 days day)) else none

abbrev pub fresh_key : String → String → String → String → String → Option ℕ → ApiKey
fresh_key app_id hash prefix name environment expires_at = record {
  id = "";
  app_id = app_id;
  key_hash = hash;
  key_prefix = prefix;
  name = name;
  environment = environment;
  status = "";
  last_used_at = none;
  revoked_at = none;
  expires_at = expires_at;
  created_at = 0;
}

-- `CreateKey` once the app is known to be the caller's. The reply has the stored key and the
-- plaintext.
unfoldable pub create_for :
    Entropy
    → ℕ
    → String
    → String
    → App
    → Option CreateRequest
    → KeyStore
    → KeyStore × Reply (ApiKey × String)
create_for entropy now uuid app_id app none keys =
    (keys, fault 400 "invalid_request" "Invalid JSON body")
create_for entropy now uuid app_id app (some req) keys =
    elim (generate_key entropy app.environment) [
      | none ↦ (keys, fault 500 "internal_error" "Failed to generate key")
      | some (plaintext, hash, prefix) ↦
          let name = if req.name == "" then "Default" else req.name in
          let (k, keys') =
            create_key now uuid
              (fresh_key app_id hash prefix name app.environment (expiry now req.expires_in_days))
              keys in
          (keys', reply 201 (k, plaintext))
    ]

unfoldable pub create_app_key :
    Entropy
    → ℕ
    → String
    → String
    → String
    → Option CreateRequest
    → AppStore
    → KeyStore
    → KeyStore × Reply (ApiKey × String)
unfolding create_for
create_app_key entropy now uuid user_id app_id body apps keys =
    if user_id == ""
    then (keys, fault 401 "unauthorized" "X-User-ID header is required")
    else if app_id == ""
    then (keys, fault 400 "invalid_request" "app_id is required")
    else elim (get_app app_id apps) [
      | err _ ↦ (keys, fault 404 "not_found" "App not found")
      | ok app ↦
          if not (app.owner_user_id == user_id)
          then (keys, fault 403 "forbidden" "You do not own this app")
          else create_for entropy now uuid app_id app body keys
    ]

unfoldable pub list_keys : String → String → AppStore → KeyStore → Reply (List ApiKey)
list_keys user_id app_id apps keys =
    if user_id == ""
    then fault 401 "unauthorized" "X-User-ID header is required"
    else if app_id == ""
    then fault 400 "invalid_request" "app_id is required"
    else elim (get_app app_id apps) [
      | err _ ↦ fault 404 "not_found" "App not found"
      | ok app ↦
          if not (app.owner_user_id == user_id)
          then fault 403 "forbidden" "You do not own this app"
          else reply 200 (list_by_app app_id keys)
    ]

-- The reply has the key's id.
unfoldable pub revoke_app_key :
    ℕ → String → String → String → AppStore → KeyStore → KeyStore × Reply String
revoke_app_key now user_id app_id key_id apps keys =
    if user_id == ""
    then (keys, fault 401 "unauthorized" "X-User-ID header is required")
    else elim (get_app app_id apps) [
      | err _ ↦ (keys, fault 404 "not_found" "App not found")
      | ok app ↦
          if not (app.owner_user_id == user_id)
          then (keys, fault 403 "forbidden" "You do not own this app")
          else elim (revoke_key now key_id keys) [
            | err _ ↦ (keys, fault 404 "not_found" "Key not found")
            | ok keys' ↦ (keys', reply 200 key_id)
          ]
    ]

-- `RotateKey` once the app is known to be the caller's. The reply has the new key, its plaintext
-- and the old key.
unfoldable pub rotate_for :
    Entropy → ℕ → String → String → String → KeyStore → KeyStore × Reply (ApiKey × String × ApiKey)
rotate_for entropy now uuid app_id key_id keys = elim (get_key key_id keys) [
  | err _ ↦ (keys, fault 404 "not_found" "Key not found")
  | ok old ↦
      if old.status == "REVOKED"
      then (keys, fault 409 "already_revoked" "Cannot rotate a revoked key")
      else elim (generate_key entropy old.environment) [
        | none ↦ (keys, fault 500 "internal_error" "Failed to generate key")
        | some (plaintext, hash, prefix) ↦
            let (k, keys') =
              create_key now uuid
                (fresh_key app_id hash prefix (concat old.name " (rotated)") old.environment none)
                keys in
            (keys', reply 201 (k, plaintext, old))
      ]
]

unfoldable pub rotate_key :
    Entropy
    → ℕ
    → String
    → String
    → String
    → String
    → AppStore
    → KeyStore
    → KeyStore × Reply (ApiKey × String × ApiKey)
unfolding rotate_for
rotate_key entropy now uuid user_id app_id key_id apps keys =
    if user_id == ""
    then (keys, fault 401 "unauthorized" "X-User-ID header is required")
    else elim (get_app app_id apps) [
      | err _ ↦ (keys, fault 404 "not_found" "App not found")
      | ok app ↦
          if not (app.owner_user_id == user_id)
          then (keys, fault 403 "forbidden" "You do not own this app")
          else rotate_for entropy now uuid app_id key_id keys
    ]
