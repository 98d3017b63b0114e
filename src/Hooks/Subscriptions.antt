-- ===== src/Hooks/Subscriptions.antt =====
-- services/garudaportal/store/webhook.go and handler/webhook.go: subscribing to events. The random
-- secret, the time of a call and the fresh UUID are arguments; `none` for the secret is a failure of
-- the random source, and `none` for a body one that is no JSON.
use text.Mathlib.Text.{starts_with}
use gpass.Prelude.{
  concat, length, select, any_of, Dict, lookup, insert, values, ℕ, String, Bool, true, false, not,
  ◌&&◌, ◌||◌, Option, none, some, List, ◌==◌, eqb, if◌then◌else◌, Result, ok, err, Reply, reply,
  fault,
}
use gpass.Portal.Keys.{AppStore, get_app}

pub record WebhookSubscription : Type 0 where
  pub id : String
  pub app_id : String
  pub url : String
  pub events : List String
  pub secret : String
  pub status : String
  pub created_at : ℕ
  pub updated_at : ℕ

abbrev pub WebhookStore : Type 0
WebhookStore = Dict WebhookSubscription

pub data WebhookError : Type 0 where
  webhook_not_found webhook_url_scheme : WebhookError

unfoldable pub is_valid_webhook_url : String → Bool
is_valid_webhook_url u =
    if starts_with u "https://"
    then true
    else if starts_with u "http://localhost" || starts_with u "http://127.0.0.1"
    then true
    else false

abbrev pub webhook_stamped : ℕ → String → WebhookSubscription → WebhookSubscription
webhook_stamped now uuid sub = record sub {
  id = uuid;
  created_at = now;
  updated_at = now;
  status = if sub.status == "" then "ACTIVE" else sub.status;
}

unfoldable pub create_webhook :
    ℕ
    → String
    → WebhookSubscription
    → WebhookStore
    → Result WebhookError (WebhookSubscription × WebhookStore)
create_webhook now uuid sub s =
    if not (is_valid_webhook_url sub.url)
    then err webhook_url_scheme
    else ok (webhook_stamped now uuid sub, insert uuid (webhook_stamped now uuid sub) s)

unfoldable pub get_webhook : String → WebhookStore → Result WebhookError WebhookSubscription
get_webhook id s = elim (lookup id s) [ none ↦ err webhook_not_found | some sub ↦ ok sub ]

unfoldable pub list_webhooks_by_app : String → WebhookStore → List WebhookSubscription
list_webhooks_by_app app_id s = select (λ sub. sub.app_id == app_id) (values s)

-- the active subscriptions that list the event
unfoldable pub list_by_event : String → WebhookStore → List WebhookSubscription
list_by_event event_type s =
    select (λ sub. sub.status == "ACTIVE" && any_of (λ ev. ev == event_type) sub.events) (values s)

unfoldable pub disable : ℕ → String → WebhookStore → Result WebhookError WebhookStore
disable now id s = elim (lookup id s) [
  | none ↦ err webhook_not_found
  | some sub ↦ ok (insert id (record sub { status = "DISABLED"; updated_at = now }) s)
]

pub record SubscribeRequest : Type 0 where
  pub url : String
  pub events : List String

-- `Subscribe` once the app is known to be the caller's
unfoldable pub subscribe_for :
    ℕ
    → String
    → String
    → Option String
    → Option SubscribeRequest
    → WebhookStore
    → WebhookStore × Reply WebhookSubscription
subscribe_for now uuid app_id secret none s = (s, fault 400 "invalid_request" "Invalid JSON body")
subscribe_for now uuid app_id secret (some req) s =
    if req.url == ""
    then (s, fault 400 "invalid_request" "url is required")
    else if eqb (length req.events) 0
    then (s, fault 400 "invalid_request" "events must not be empty")
    else elim secret [
      | none ↦ (s, fault 500 "internal_error" "Failed to generate secret")
      | some hex ↦
          elim (create_webhook now uuid
            (record {
              id = "";
              app_id = app_id;
              url = req.url;
              events = req.events;
              secret = concat "whsec_" hex;
              status = "";
              created_at = 0;
              updated_at = 0;
            })
            s) [
              | err webhook_url_scheme ↦ (
                s,
                fault 400 "invalid_request"
                    "Webhook URL must use https (except localhost for development)",
              )
              | err _ ↦ (s, fault 500 "internal_error" "Failed to create webhook")
              | ok (sub, s') ↦ (s', reply 201 sub)
            ]
    ]

-- the guards that the handlers of an app begin with
unfoldable pub owned_app : String → String → AppStore → Reply (Unit {0})
owned_app user_id app_id apps = elim (get_app app_id apps) [
  | err _ ↦ fault 404 "not_found" "App not found"
  | ok app ↦
      if not (app.owner_user_id == user_id)
      then fault 403 "forbidden" "You do not own this app"
      else reply 200 tt
]

unfoldable pub subscribe :
    ℕ
    → String
    → String
    → String
    → Option String
    → Option SubscribeRequest
    → AppStore
    → WebhookStore
    → WebhookStore × Reply WebhookSubscription
subscribe now uuid user_id app_id secret body apps s =
    if user_id == ""
    then (s, fault 401 "unauthorized" "X-User-ID header is required")
    else if app_id == ""
    then (s, fault 400 "invalid_request" "app_id is required")
    else elim (owned_app user_id app_id apps) [
      | fault status code message ↦ (s, fault status code message)
      | reply _ _ ↦ subscribe_for now uuid app_id secret body s
    ]

unfoldable pub list_webhooks :
    String → String → AppStore → WebhookStore → Reply (List WebhookSubscription)
list_webhooks user_id app_id apps s =
    if user_id == ""
    then fault 401 "unauthorized" "X-User-ID header is required"
    else if app_id == ""
    then fault 400 "invalid_request" "app_id is required"
    else elim (owned_app user_id app_id apps) [
      | fault status code message ↦ fault status code message
      | reply _ _ ↦ reply 200 (list_webhooks_by_app app_id s)
    ]

-- The reply has the webhook's id.
unfoldable pub delete_webhook :
    ℕ → String → String → String → AppStore → WebhookStore → WebhookStore × Reply String
delete_webhook now user_id app_id webhook_id apps s =
    if user_id == ""
    then (s, fault 401 "unauthorized" "X-User-ID header is required")
    else elim (owned_app user_id app_id apps) [
      | fault status code message ↦ (s, fault status code message)
      | reply _ _ ↦ elim (disable now webhook_id s) [
        | err _ ↦ (s, fault 404 "not_found" "Webhook not found")
        | ok s' ↦ (s', reply 200 webhook_id)
      ]
    ]
