-- ===== src/Hooks/Deliveries.antt =====
-- services/garudaportal/store/delivery.go: the in-memory store of webhook deliveries. It copies what
-- goes in and out. Response codes and attempts are never negative.
use gpass.Prelude.{
  length, select, Dict, lookup, insert, values, ℤ, pos, negsuc, ℕ, suc, String, Bool, true, false,
  not, ◌&&◌, ◌||◌, Option, none, some, List, [], ◌∷◌, ◌++◌, ◌==◌, ltb, leb, eqb, if◌then◌else◌,
  Result, ok, err,
}

pub record WebhookDelivery : Type 0 where
  pub id : String
  pub subscription_id : String
  pub event_type : String
  pub payload : String
  pub status : String
  pub attempts : ℕ
  pub last_response_code : ℕ
  pub last_response_body : String
  pub next_retry_at : Option ℕ
  pub delivered_at : Option ℕ
  pub created_at : ℕ

abbrev pub DeliveryStore : Type 0
DeliveryStore = Dict WebhookDelivery

pub data DeliveryError : Type 0 where
  delivery_not_found : DeliveryError

abbrev pub delivery_stamped : ℕ → String → WebhookDelivery → WebhookDelivery
delivery_stamped now uuid d = record d {
  id = uuid;
  created_at = now;
  status = if d.status == "" then "PENDING" else d.status;
}

unfoldable pub create_delivery :
    ℕ → String → WebhookDelivery → DeliveryStore → WebhookDelivery × DeliveryStore
create_delivery now uuid d s =
    (delivery_stamped now uuid d, insert uuid (delivery_stamped now uuid d) s)

unfoldable pub get_delivery : String → DeliveryStore → Result DeliveryError WebhookDelivery
get_delivery id s = elim (lookup id s) [ none ↦ err delivery_not_found | some d ↦ ok d ]

-- What `UpdateStatus` writes into a delivery.
unfoldable pub delivery_moved :
    ℕ → String → ℕ → String → Option ℕ → WebhookDelivery → WebhookDelivery
delivery_moved now status code body next_retry d = record d {
  status = status;
  last_response_code = code;
  last_response_body = body;
  attempts = suc d.attempts;
  next_retry_at = next_retry;
  delivered_at = if status == "DELIVERED" then some now else d.delivered_at;
}

unfoldable pub update_delivery :
    ℕ → String → String → ℕ → String → Option ℕ → DeliveryStore → Result DeliveryError DeliveryStore
update_delivery now id status code body next_retry s = elim (lookup id s) [
  | none ↦ err delivery_not_found
  | some d ↦ ok (insert id (delivery_moved now status code body next_retry d) s)
]

-- the loop of `ListBySubscription`, with the matches so far
unfoldable pub by_subscription_loop :
    String → String → ℕ → List WebhookDelivery → List WebhookDelivery → List WebhookDelivery
by_subscription_loop subscription_id status limit result [] = result
by_subscription_loop subscription_id status limit result (d ∷ ds) =
    elim (not (d.subscription_id == subscription_id)
      || (not (status == "") && not (d.status == status))) [
        | true ↦ by_subscription_loop subscription_id status limit result ds
        | false ↦ elim (leb limit (length (result ++ (d ∷ [])))) [
          | true ↦ result ++ (d ∷ [])
          | false ↦ by_subscription_loop subscription_id status limit (result ++ (d ∷ [])) ds
        ]
      ]

unfoldable pub delivery_limit : ℤ → ℕ
delivery_limit (negsuc n) = 20
delivery_limit (pos n) = if eqb n 0 then 20 else n

unfoldable pub list_by_subscription : String → String → ℤ → DeliveryStore → List WebhookDelivery
unfolding by_subscription_loop delivery_limit
list_by_subscription subscription_id status limit s =
    by_subscription_loop subscription_id status (delivery_limit limit) [] (values s)

unfoldable pub reset_for_replay : String → DeliveryStore → Result DeliveryError DeliveryStore
reset_for_replay id s = elim (lookup id s) [
  | none ↦ err delivery_not_found
  | some d ↦ ok (
      insert id
        (record d { status = "PENDING"; attempts = 0; next_retry_at = none; delivered_at = none })
        s)
]

-- pending, and with no time for the next try or one that has come
unfoldable pub is_due : ℕ → WebhookDelivery → Bool
is_due now d =
    d.status == "PENDING" && elim d.next_retry_at [ none ↦ true | some t ↦ not (ltb now t) ]

unfoldable pub list_pending : ℕ → DeliveryStore → List WebhookDelivery
unfolding is_due
list_pending now s = select (is_due now) (values s)
