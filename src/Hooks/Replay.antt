-- ===== src/Hooks/Replay.antt =====
-- services/garudaportal/handler/replay.go: replaying a delivery, with the dispatcher of
-- webhook/dispatcher.go.
use gpass.Prelude.{
  ℤ, pos, ltb_ℤ, ℕ, String, not, Option, none, some, List, [], ◌∷◌, ◌++◌, ◌==◌, if◌then◌else◌, ok,
  err, Reply, reply, fault,
}
use gpass.Portal.Keys.{AppStore}
use gpass.Hooks.Subscriptions.{
  WebhookSubscription, WebhookStore, get_webhook, list_webhooks_by_app, owned_app,
}
use gpass.Hooks.Deliveries.{
  WebhookDelivery, DeliveryStore, get_delivery, list_by_subscription, reset_for_replay,
}
use gpass.Hooks.Dispatch.{Response, deliver}

-- `ReplayDelivery` once the delivery is known to belong to the caller's app
unfoldable pub redeliver :
    ℕ
    → String
    → String
    → WebhookSubscription
    → WebhookDelivery
    → Response
    → DeliveryStore
    → DeliveryStore × Reply WebhookDelivery
redeliver now uuid delivery_id sub d answer s = elim (reset_for_replay delivery_id s) [
  | err _ ↦ (s, fault 500 "internal_error" "Failed to reset delivery")
  | ok s₁ ↦
      let s₂ = deliver now uuid sub d.event_type d.payload answer s₁ in
      elim (get_delivery delivery_id s₂) [
        | err _ ↦ (s₂, fault 500 "internal_error" "Failed to get delivery result")
        | ok updated ↦ (s₂, reply 200 updated)
      ]
]

unfoldable pub replay_delivery :
    ℕ
    → String
    → String
    → String
    → String
    → Response
    → AppStore
    → WebhookStore
    → DeliveryStore
    → DeliveryStore × Reply WebhookDelivery
unfolding redeliver
replay_delivery now uuid user_id app_id delivery_id answer apps hooks s =
    if user_id == ""
    then (s, fault 401 "unauthorized" "X-User-ID header is required")
    else elim (owned_app user_id app_id apps) [
      | fault status code message ↦ (s, fault status code message)
      | reply _ _ ↦ elim (get_delivery delivery_id s) [
        | err _ ↦ (s, fault 404 "not_found" "Delivery not found")
        | ok d ↦ elim (get_webhook d.subscription_id hooks) [
          | err _ ↦ (s, fault 404 "not_found" "Webhook subscription not found")
          | ok sub ↦
              if not (sub.app_id == app_id)
              then (s, fault 403 "forbidden" "Delivery does not belong to this app")
              else redeliver now uuid delivery_id sub d answer s
        ]
      ]
    ]

-- the loop over the subscriptions of the app
unfoldable pub gather : String → ℤ → List WebhookSubscription → DeliveryStore → List WebhookDelivery
gather status limit [] s = []
gather status limit (sub ∷ subs) s =
    list_by_subscription sub.id status limit s ++ gather status limit subs s

unfoldable pub asked_limit : Option ℤ → ℤ
asked_limit none = pos 20
asked_limit (some n) = if ltb_ℤ (pos 0) n then n else pos 20

-- `parsed` is the `limit` parameter as a number, if it is one.
unfoldable pub list_deliveries :
    String
    → String
    → String
    → Option ℤ
    → AppStore
    → WebhookStore
    → DeliveryStore
    → Reply (List WebhookDelivery)
unfolding gather
list_deliveries user_id app_id status parsed apps hooks s =
    if user_id == ""
    then fault 401 "unauthorized" "X-User-ID header is required"
    else elim (owned_app user_id app_id apps) [
      | fault status code message ↦ fault status code message
      | reply _ _ ↦
          reply 200 (gather status (asked_limit parsed) (list_webhooks_by_app app_id hooks) s)
    ]
