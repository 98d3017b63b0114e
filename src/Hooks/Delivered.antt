-- ===== src/Hooks/Delivered.antt =====
-- The deliveries under sequences of writes: events that are sent, runs of the worker and replays
-- (services/garudaportal), in any order.
use gpass.Prelude.{lookup, ℕ, String, ◌≡◌, refl, ap, ◌∙◌, inl, inr, false, some, ◌==◌}
use gpass.Portal.Keys.{AppStore}
use gpass.Hooks.Subscriptions.{WebhookSubscription, WebhookStore}
use gpass.Hooks.Deliveries.{WebhookDelivery, DeliveryStore, is_due, list_pending}
use gpass.Hooks.Dispatch.{Response, deliver}
use gpass.Hooks.Worker.{Receiver, process_pending}
use gpass.Hooks.Replay.{replay_delivery}
use gpass.Hooks.Settled.{after_cycle, IsKeyed}
use gpass.Hooks.Whole.{process_pending_lem}
use gpass.Hooks.Again.{lookup-deliver, replay_delivery_cases}
use gpass.Hooks.Runs.{deliver-IsKeyed, process_loop-IsKeyed, redeliver-IsKeyed, lookup-redeliver}

-- One write of the deliveries under a fresh UUID. Replays are of deliveries other than `kept_id`.
pub data DeliveryStep (kept_id : String) : DeliveryStore → DeliveryStore → Type 0 where
  event_sent :
      {s : DeliveryStore} (now : ℕ) (uuid : String) (sub : WebhookSubscription)
      (event_type payload : String) (answer : Response)
      → (uuid == kept_id) ≡ false
      → DeliveryStep kept_id s (deliver now uuid sub event_type payload answer s)
  worker_ran :
      {s : DeliveryStore} (now : ℕ) (receiver : Receiver) (hooks : WebhookStore)
      → DeliveryStep kept_id s (process_pending now receiver hooks s).store
  replayed :
      {s : DeliveryStore} (now : ℕ) (uuid user_id app_id id : String) (answer : Response)
      (apps : AppStore) (hooks : WebhookStore)
      → (uuid == kept_id) ≡ false
      → (id == kept_id) ≡ false
      → DeliveryStep kept_id s (replay_delivery now uuid user_id app_id id answer apps hooks s).0

pub data DeliveryRun (kept_id : String) : DeliveryStore → DeliveryStore → Type 0 where
  stop : {s : DeliveryStore} → DeliveryRun kept_id s s
  more :
      {s t u : DeliveryStore}
      → DeliveryStep kept_id s t
      → DeliveryRun kept_id t u
      → DeliveryRun kept_id s u

step-IsKeyed : (id : String) (s t : DeliveryStore) → DeliveryStep id s t → IsKeyed s → IsKeyed t
unfolding process_pending
step-IsKeyed id s _ (event_sent now uuid sub event_type payload answer f) h =
    deliver-IsKeyed now uuid sub event_type payload answer s h
step-IsKeyed id s _ (worker_ran now receiver hooks) h =
    process_loop-IsKeyed now receiver hooks (list_pending now s) _ h
step-IsKeyed id s _ (replayed now uuid user_id app_id other answer apps hooks f g) h =
    elim (replay_delivery_cases now uuid user_id app_id other answer apps hooks s) [
      | inl (status, code, message, e, _) ↦ rw e h
      | inr (d, sub, l, e) ↦ rw e (redeliver-IsKeyed now uuid other sub d answer s l h)
    ]

after_cycle-delivered :
    (now : ℕ) (receiver : Receiver) (hooks : WebhookStore) (d : WebhookDelivery)
    → d.status ≡ "DELIVERED"
    → after_cycle now receiver hooks d ≡ d
unfolding after_cycle is_due
after_cycle-delivered now receiver hooks d h = rw h refl

step-delivered :
    (id : String) (s t : DeliveryStore) (d : WebhookDelivery)
    → DeliveryStep id s t
    → IsKeyed s
    → d.status ≡ "DELIVERED"
    → lookup id s ≡ some d
    → lookup id t ≡ some d
step-delivered id s _ d (event_sent now uuid sub event_type payload answer f) h p l =
    lookup-deliver now uuid sub event_type payload answer s id f ∙ l
step-delivered id s _ d (worker_ran now receiver hooks) h p l =
    (process_pending_lem now receiver hooks s h).0 id
    ∙ rw l (ap some (after_cycle-delivered now receiver hooks d p))
step-delivered id s _ d (replayed now uuid user_id app_id other answer apps hooks f g) h p l =
    elim (replay_delivery_cases now uuid user_id app_id other answer apps hooks s) [
      | inl (status, code, message, e, _) ↦ rw e l
      | inr (e, sub, k, r) ↦ rw r (lookup-redeliver now uuid other sub e answer s id k f g ∙ l)
    ]

-- From a store that has every delivery under its id, however events are sent under other ids, the
-- worker runs and other deliveries are replayed: every delivery still stands under its id, and one
-- that was delivered stays as it is.
pub delivered_for_good :
    (id : String) (s t : DeliveryStore) (d : WebhookDelivery)
    → DeliveryRun id s t
    → IsKeyed s
    → d.status ≡ "DELIVERED"
    → lookup id s ≡ some d
    → IsKeyed t × (lookup id t ≡ some d)
delivered_for_good id s _ d stop h p l = (h, l)
delivered_for_good id s u d (more {t = t} w r) h p l =
    delivered_for_good id t u d r (step-IsKeyed id s t w h) p (step-delivered id s t d w h p l)
