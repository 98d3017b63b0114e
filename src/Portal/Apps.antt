-- ===== src/Portal/Apps.antt =====
-- Apps of the developer portal: the in-memory store of services/garudaportal/store/app.go (with
-- `GetByID` in Portal/Keys) and the handlers of handler/app.go. The fresh UUID and the time of a call
-- are arguments; `none` for a body is one that is no JSON.
use gpass.Prelude.{
  select, lookup, insert, values, pos, ℕ, String, not, Option, none, some, List, ◌==◌,
  if◌then◌else◌, Result, ok, err, Reply, reply, fault,
}
use gpass.Portal.Keys.{App, AppStore, AppError, app_not_found, app_name_empty, get_app}

-- A `nil` slice of callback URLs is `none`.
pub record AppUpdate : Type 0 where
  pub name : Option String
  pub description : Option String
  pub callback_urls : Option (List String)

abbrev pub app_stamped : ℕ → String → App → App
app_stamped now uuid app = record app {
  id = uuid;
  created_at = now;
  updated_at = now;
  status = if app.status == "" then "ACTIVE" else app.status;
}

unfoldable pub create_app : ℕ → String → App → AppStore → Result AppError (App × AppStore)
create_app now uuid app s =
    if app.name == ""
    then err app_name_empty
    else ok (app_stamped now uuid app, insert uuid (app_stamped now uuid app) s)

unfoldable pub list_by_owner : String → AppStore → List App
list_by_owner owner s = select (λ app. app.owner_user_id == owner) (values s)

abbrev pub or_held {ℓ} : {A : Type ℓ} → Option A → A → A
or_held none held = held
or_held (some new) held = new

abbrev pub app_updated : ℕ → AppUpdate → App → App
app_updated now updates app = record app {
  name = or_held updates.name app.name;
  description = or_held updates.description app.description;
  callback_urls = or_held updates.callback_urls app.callback_urls;
  updated_at = now;
}

unfoldable pub update_app : ℕ → String → AppUpdate → AppStore → Result AppError (App × AppStore)
update_app now id updates s = elim (lookup id s) [
  | none ↦ err app_not_found
  | some app ↦ ok (app_updated now updates app, insert id (app_updated now updates app) s)
]

pub record CreateAppRequest : Type 0 where
  pub name : String
  pub description : String
  pub callback_urls : List String

abbrev pub new_app : String → CreateAppRequest → App
new_app user_id req = record {
  id = "";
  owner_user_id = user_id;
  name = req.name;
  description = req.description;
  environment = "sandbox";
  tier = "free";
  daily_limit = pos 100;
  callback_urls = req.callback_urls;
  oauth_client_id = "";
  status = "";
  created_at = 0;
  updated_at = 0;
}

unfoldable pub handle_create_app :
    ℕ → String → String → Option CreateAppRequest → AppStore → AppStore × Reply App
handle_create_app now uuid user_id body s =
    if user_id == ""
    then (s, fault 401 "unauthorized" "X-User-ID header is required")
    else elim body [
      | none ↦ (s, fault 400 "invalid_request" "Invalid JSON body")
      | some req ↦
          if req.name == ""
          then (s, fault 400 "invalid_request" "name is required")
          else elim (create_app now uuid (new_app user_id req) s) [
            | err _ ↦ (s, fault 500 "internal_error" "Failed to create app")
            | ok (app, s') ↦ (s', reply 201 app)
          ]
    ]

unfoldable pub handle_list_apps : String → AppStore → Reply (List App)
handle_list_apps user_id s =
    if user_id == ""
    then fault 401 "unauthorized" "X-User-ID header is required"
    else reply 200 (list_by_owner user_id s)

unfoldable pub handle_get_app : String → String → AppStore → Reply App
handle_get_app user_id id s =
    if user_id == ""
    then fault 401 "unauthorized" "X-User-ID header is required"
    else if id == ""
    then fault 400 "invalid_request" "app id is required"
    else elim (get_app id s) [
      | err _ ↦ fault 404 "not_found" "App not found"
      | ok app ↦
          if not (app.owner_user_id == user_id)
          then fault 403 "forbidden" "You do not own this app"
          else reply 200 app
    ]

unfoldable pub handle_update_app :
    ℕ → String → String → Option AppUpdate → AppStore → AppStore × Reply App
handle_update_app now user_id id body s = elim (handle_get_app user_id id s) [
  | fault status code message ↦ (s, fault status code message)
  | reply _ _ ↦ elim body [
    | none ↦ (s, fault 400 "invalid_request" "Invalid JSON body")
    | some updates ↦ elim (update_app now id updates s) [
      | err _ ↦ (s, fault 500 "internal_error" "Failed to update app")
      | ok (app, s') ↦ (s', reply 200 app)
    ]
  ]
]
