-- ===== src/Portal/Keys.antt =====
-- services/garudaportal/store/key.go, with the `App` record and `GetByID` of store/app.go: the
-- in-memory stores. They copy what goes in and out. The time of a call and the fresh UUID are
-- arguments.
use gpass.Prelude.{
  select, find_first, Dict, lookup, insert, values, ℤ, ℕ, String, Option, none, some, List, ◌==◌,
  if◌then◌else◌, Result, ok, err,
}

pub record ApiKey : Type 0 where
  pub id : String
  pub app_id : String
  pub key_hash : String
  pub key_prefix : String
  pub name : String
  pub environment : String
  pub status : String
  pub last_used_at : Option ℕ
  pub revoked_at : Option ℕ
  pub expires_at : Option ℕ
  pub created_at : ℕ

abbrev pub KeyStore : Type 0
KeyStore = Dict ApiKey

pub data KeyError : Type 0 where
  key_not_found : KeyError

abbrev pub key_stamped : ℕ → String → ApiKey → ApiKey
key_stamped now uuid k = record k {
  id = uuid;
  created_at = now;
  status = if k.status == "" then "ACTIVE" else k.status;
}

unfoldable pub create_key : ℕ → String → ApiKey → KeyStore → ApiKey × KeyStore
create_key now uuid k s = (key_stamped now uuid k, insert uuid (key_stamped now uuid k) s)

unfoldable pub get_key : String → KeyStore → Result KeyError ApiKey
get_key id s = elim (lookup id s) [ none ↦ err key_not_found | some k ↦ ok k ]

-- the first key with the hash that the loop over the map meets
unfoldable pub get_by_hash : String → KeyStore → Result KeyError ApiKey
get_by_hash hash s = elim (find_first (λ k. k.key_hash == hash) (values s)) [
  | none ↦ err key_not_found
  | some k ↦ ok k
]

unfoldable pub list_by_app : String → KeyStore → List ApiKey
list_by_app app_id s = select (λ k. k.app_id == app_id) (values s)

abbrev pub key_revoked : ℕ → ApiKey → ApiKey
key_revoked now k = record k { status = "REVOKED"; revoked_at = some now }

unfoldable pub revoke_key : ℕ → String → KeyStore → Result KeyError KeyStore
revoke_key now id s = elim (lookup id s) [
  | none ↦ err key_not_found
  | some k ↦ ok (insert id (key_revoked now k) s)
]

unfoldable pub update_last_used : ℕ → String → KeyStore → Result KeyError KeyStore
update_last_used now id s = elim (lookup id s) [
  | none ↦ err key_not_found
  | some k ↦ ok (insert id (record k { last_used_at = some now }) s)
]

pub record App : Type 0 where
  pub id : String
  pub owner_user_id : String
  pub name : String
  pub description : String
  pub environment : String
  pub tier : String
  pub daily_limit : ℤ
  pub callback_urls : List String
  pub oauth_client_id : String
  pub status : String
  pub created_at : ℕ
  pub updated_at : ℕ

abbrev pub AppStore : Type 0
AppStore = Dict App

pub data AppError : Type 0 where
  app_not_found app_name_empty : AppError

unfoldable pub get_app : String → AppStore → Result AppError App
get_app id s = elim (lookup id s) [ none ↦ err app_not_found | some a ↦ ok a ]
