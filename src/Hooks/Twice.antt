-- ===== src/Hooks/Twice.antt =====
-- What the worker makes of a delivery that was replayed (services/garudaportal).
use gpass.Portal.Keys.{AppStore}
use gpass.Prelude.{
  lookup, ℕ, ◌≤◌, String, ◌≡◌, refl, ap, ◌∙◌, ◌⊎◌, inl, inr, true, false, some, map_some, ◌==◌,
  if◌then◌else◌, Bool-cases, Result, ok, err, Result-cases, reply, fault,
}
use gpass.Hooks.Runs.{redeliver-IsKeyed}
use gpass.Hooks.Dispatch.{Response}
use gpass.Hooks.Again.{reset_delivery, replay_delivery_cases, replay_delivery-again}
use gpass.Hooks.Whole.{process_pending_lem}
use gpass.Hooks.Settled.{settled_by, settled, after_cycle, IsKeyed}
use gpass.Hooks.Replay.{replay_delivery}
use gpass.Hooks.Subscriptions.{WebhookSubscription, WebhookStore, WebhookError, get_webhook}
use gpass.Hooks.Deliveries.{WebhookDelivery, DeliveryStore, is_due}
use gpass.Hooks.Worker.{Receiver, process_pending}

replay_delivery-IsKeyed :
    (now : ℕ) (uuid user_id app_id id : String) (answer : Response) (apps : AppStore)
    (hooks : WebhookStore) (s : DeliveryStore)
    → IsKeyed s
    → IsKeyed (replay_delivery now uuid user_id app_id id answer apps hooks s).0
replay_delivery-IsKeyed now uuid user_id app_id id answer apps hooks s h =
    elim (replay_delivery_cases now uuid user_id app_id id answer apps hooks s) [
      | inl (status, code, message, e, _) ↦ rw e h
      | inr (d, sub, l, e) ↦ rw e (redeliver-IsKeyed now uuid id sub d answer s l h)
    ]

-- What the worker makes of a due delivery at time `t`.
abbrev pub tried_if_active :
    ℕ → Receiver → WebhookDelivery → Result WebhookError WebhookSubscription → WebhookDelivery
tried_if_active t receiver d (err _) = d
tried_if_active t receiver d (ok sub) =
    if sub.status == "ACTIVE" then settled_by t d (receiver d sub) else d

after_cycle-due :
    (t : ℕ) (receiver : Receiver) (hooks : WebhookStore) (d : WebhookDelivery)
    → is_due t d ≡ true
    → after_cycle t receiver hooks d
      ≡ tried_if_active t receiver d (get_webhook d.subscription_id hooks)
unfolding after_cycle settled
after_cycle-due t receiver hooks d h = elim (Result-cases (get_webhook d.subscription_id hooks)) [
  | inr (x, g) ↦ rw h (rw (g, settled) refl)
  | inl (sub, g) ↦ elim (Bool-cases (sub.status == "ACTIVE")) [
    | inl a ↦ rw h (rw (g, settled) (rw a refl))
    | inr a ↦ rw h (rw (g, settled) (rw a refl))
  ]
]

-- In a store where every delivery stands under its id, a replay either fails with an error code of 400
-- or more and changes nothing, or it answers with the delivery reset, whatever the receiver answered
-- to it, and the next run of the worker, at any time, takes that delivery up again: it tries it a
-- second time if its subscription is there and active then, and leaves it pending otherwise.
pub replay_delivery-twice :
    (now : ℕ) (uuid user_id app_id id : String) (answer : Response) (apps : AppStore)
    (hooks : WebhookStore) (s : DeliveryStore) (t : ℕ) (receiver : Receiver) (later : WebhookStore)
    → (uuid == id) ≡ false
    → IsKeyed s
    → ((status : ℕ) × (code : String) × (message : String) × (replay_delivery now uuid user_id
            app_id id answer apps hooks s
          ≡ (s, fault status code message))
        × (400 ≤ status))
      ⊎ ((d : WebhookDelivery) × (lookup id s ≡ some d)
          × ((replay_delivery now uuid user_id app_id id answer apps hooks s).1
              ≡ reply 200 (reset_delivery d))
          × (lookup id
                (process_pending t receiver later
                  (replay_delivery now uuid user_id app_id id answer apps hooks s).0).store
              ≡ some (
                  tried_if_active t receiver
                    (reset_delivery d)
                    (get_webhook d.subscription_id later))))
replay_delivery-twice now uuid user_id app_id id answer apps hooks s t receiver later f keyed =
    elim (replay_delivery-again now uuid user_id app_id id answer apps hooks s f) [
      | inl refused ↦ inl refused
      | inr (d, l, sent, held, due) ↦
          let run =
            (process_pending_lem t receiver later
                (replay_delivery now uuid user_id app_id id answer apps hooks s).0
                (replay_delivery-IsKeyed now uuid user_id app_id id answer apps hooks s keyed)).0
              id in
          inr (
            d,
            l,
            sent,
            run
                ∙ ap (map_some (after_cycle t receiver later)) held
                ∙ ap some (after_cycle-due t receiver later (reset_delivery d) (due t)),
          )
    ]
