-- ===== src/Hooks/Tests.antt =====
-- Runs of the webhook code of services/garudaportal, and its theorems at concrete inputs.
use gpass.Prelude.{
  length, select, lookup, insert, values, pos, ℕ, ◌≤◌, String, ◌≡◌, refl, ◌⊎◌, true, false, some,
  map_some, [], ◌∷◌, eqb, if◌then◌else◌, ok, reply, fault,
}
use gpass.Portal.Keys.{App, AppStore, get_app}
use gpass.Hooks.Subscriptions.{
  WebhookSubscription, WebhookStore, is_valid_webhook_url, create_webhook, get_webhook,
  list_webhooks_by_app, list_by_event, disable, subscribe_for, owned_app, subscribe, list_webhooks,
  delete_webhook,
}
use gpass.Hooks.Deliveries.{
  WebhookDelivery, DeliveryStore, create_delivery, get_delivery, delivery_moved, update_delivery,
  list_by_subscription, reset_for_replay, is_due, list_pending,
}
use gpass.Hooks.Dispatch.{
  not_built, delay_at, next_retry_delay, record_answer, sent_delivery, deliver,
}
use gpass.Hooks.Worker.{Receiver, attempt, process_one, process_loop, process_pending}
use gpass.Hooks.Replay.{redeliver, replay_delivery}
use gpass.Hooks.Settled.{settled_by, settled, after_cycle, IsKeyed}
use gpass.Hooks.Whole.{process_pending_lem}
use gpass.Hooks.Again.{reset_delivery}
use gpass.Hooks.Delivered.{DeliveryStep, replayed, stop, more, delivered_for_good}
use gpass.Hooks.Backoff.{IsTried, is_listening, process_pending-backoff}
use gpass.Hooks.Twice.{tried_if_active, replay_delivery-twice}

program : Unit {0}
unfolding lookup insert values select get_app is_valid_webhook_url create_webhook get_webhook
    owned_app disable subscribe_for subscribe list_webhooks_by_app list_webhooks delete_webhook
    list_by_event create_delivery get_delivery delivery_moved update_delivery list_by_subscription
    reset_for_replay is_due list_pending delay_at next_retry_delay record_answer deliver attempt
    process_one process_loop process_pending redeliver replay_delivery settled_by settled
    after_cycle
program = tt

abbrev shop : App
shop = record {
  id = "a1";
  owner_user_id = "ani";
  name = "Shop";
  description = "";
  environment = "sandbox";
  tier = "free";
  daily_limit = pos 100;
  callback_urls = [];
  oauth_client_id = "";
  status = "ACTIVE";
  created_at = 1;
  updated_at = 1;
}

abbrev apps : AppStore
apps = ("a1", shop) ∷ []

abbrev hook : WebhookSubscription
hook = record {
  id = "w1";
  app_id = "a1";
  url = "https://shop.example/hook";
  events = "consent.granted" ∷ [];
  secret = "whsec_1";
  status = "ACTIVE";
  created_at = 1;
  updated_at = 1;
}

abbrev hooks : WebhookStore
hooks = ("w1", hook) ∷ []

abbrev first : WebhookDelivery
first = record (sent_delivery "w1" "consent.granted" "body") { id = "d1" }

abbrev done : WebhookDelivery
done = record first { id = "d2"; status = "DELIVERED"; attempts = 1; delivered_at = some 4 }

abbrev deliveries : DeliveryStore
deliveries = ("d1", first) ∷ ("d2", done) ∷ []

abbrev receiver : Receiver
receiver d sub = if eqb d.attempts 0 then ok (503, "down") else ok (204, "")

-- a hook on a foreign host whose name begins like the local one
foreign_host : is_valid_webhook_url "http://localhost.evil.example/" ≡ true
unfolding program
foreign_host = refl

worker_run : (process_pending 9 receiver hooks deliveries).processed ≡ 1
unfolding program
worker_run = refl

keyed : IsKeyed deliveries
unfolding lookup
keyed = ((refl, (refl, tt)), (refl, (refl, tt)))

process_pending_lem_example :
    ((k : String)
      → lookup k (process_pending 9 receiver hooks deliveries).store
        ≡ map_some (after_cycle 9 receiver hooks) (lookup k deliveries))
    × ((process_pending 9 receiver hooks deliveries).processed ≡ length (list_pending 9 deliveries))
process_pending_lem_example = process_pending_lem 9 receiver hooks deliveries keyed

process_pending-backoff_example :
    (e : WebhookDelivery) × (lookup "d1" (process_pending 9 receiver hooks deliveries).store
      ≡ some e)
    × (((is_listening "w1" hooks ≡ false) × (e ≡ first))
        ⊎ ((is_listening "w1" hooks ≡ true) × IsTried 9 10 e))
unfolding program
process_pending-backoff_example =
    process_pending-backoff 9 10 receiver hooks deliveries "d1" first keyed refl refl

replayed_once :
    DeliveryStep "d2" deliveries
      (replay_delivery 9 "d3" "ani" "a1" "d1" not_built apps hooks deliveries).0
unfolding program
replayed_once = replayed 9 "d3" "ani" "a1" "d1" not_built apps hooks refl refl

delivered_for_good_example :
    IsKeyed (replay_delivery 9 "d3" "ani" "a1" "d1" not_built apps hooks deliveries).0
    × (lookup "d2" (replay_delivery 9 "d3" "ani" "a1" "d1" not_built apps hooks deliveries).0
        ≡ some done)
unfolding lookup
delivered_for_good_example =
    delivered_for_good "d2" deliveries _ done (more replayed_once stop) keyed refl refl

replay_delivery-twice_example :
    ((status : ℕ) × (code : String) × (message : String) × (replay_delivery 9 "d3" "ani" "a1" "d1"
          not_built apps hooks deliveries
        ≡ (deliveries, fault status code message))
      × (400 ≤ status))
    ⊎ ((d : WebhookDelivery) × (lookup "d1" deliveries ≡ some d)
        × ((replay_delivery 9 "d3" "ani" "a1" "d1" not_built apps hooks deliveries).1
            ≡ reply 200 (reset_delivery d))
        × (lookup "d1"
              (process_pending 12 receiver hooks
                (replay_delivery 9 "d3" "ani" "a1" "d1" not_built apps hooks deliveries).0).store
            ≡ some (
                tried_if_active 12 receiver
                  (reset_delivery d)
                  (get_webhook d.subscription_id hooks))))
replay_delivery-twice_example =
    replay_delivery-twice 9 "d3" "ani" "a1" "d1" not_built apps hooks deliveries 12 receiver hooks
      refl keyed
