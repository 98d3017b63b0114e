-- ===== src/Hooks/Worker.antt =====
-- services/garudaportal/worker/webhook.go over the stores of the portal, whose records have the
-- fields that the worker's own interfaces ask for. One run of `ProcessPending` happens at one
-- instant, and the receiver is a parameter: its answer for each delivery of the run. A dispatcher
-- that cannot build a request answers with an error, so `not_built` is `failed` here.
use gpass.Prelude.{
  pos, ℕ, suc, ◌+◌, String, not, none, some, List, [], ◌∷◌, ◌==◌, if◌then◌else◌, Result, ok, err,
}
use gpass.Hooks.Subscriptions.{WebhookSubscription, WebhookStore, get_webhook}
use gpass.Hooks.Deliveries.{
  WebhookDelivery, DeliveryStore, DeliveryError, update_delivery, list_pending,
}
use gpass.Hooks.Dispatch.{next_retry_delay, is_success}

abbrev pub Receiver : Type 0
Receiver = WebhookDelivery → WebhookSubscription → Result String (ℕ × String)

pub record Cycle : Type 0 where
  pub processed : ℕ
  pub succeeded : ℕ
  pub failures : ℕ
  pub store : DeliveryStore

-- `_ = UpdateStatus`
abbrev pub kept : DeliveryStore → Result DeliveryError DeliveryStore → DeliveryStore
kept s (err _) = s
kept s (ok s') = s'

-- the body of the loop, for a subscription that is found
unfoldable pub attempt : ℕ → Receiver → WebhookDelivery → WebhookSubscription → Cycle → Cycle
attempt now receiver d sub c = if not (sub.status == "ACTIVE") then c else elim (receiver d sub) [
  | err text ↦ record c {
    store = kept c.store (
        update_delivery now d.id "PENDING" 0 text (some (now + next_retry_delay (pos d.attempts)))
          c.store);
    failures = suc c.failures;
  }
  | ok (code, body) ↦
      if is_success code
      then record c {
        store = kept c.store (update_delivery now d.id "DELIVERED" code body none c.store);
        succeeded = suc c.succeeded;
      }
      else record c {
        store = kept c.store (
            update_delivery now d.id "PENDING" code body
              (some (now + next_retry_delay (pos d.attempts))) c.store);
        failures = suc c.failures;
      }
]

unfoldable pub process_one : ℕ → Receiver → WebhookStore → WebhookDelivery → Cycle → Cycle
process_one now receiver hooks d c =
    let c' = record c { processed = suc c.processed } in
    elim (get_webhook d.subscription_id hooks) [
      | err _ ↦ record c' { failures = suc c.failures }
      | ok sub ↦ attempt now receiver d sub c'
    ]

unfoldable pub process_loop : ℕ → Receiver → WebhookStore → List WebhookDelivery → Cycle → Cycle
process_loop now receiver hooks [] c = c
process_loop now receiver hooks (d ∷ ds) c =
    process_loop now receiver hooks ds (process_one now receiver hooks d c)

unfoldable pub process_pending : ℕ → Receiver → WebhookStore → DeliveryStore → Cycle
unfolding process_loop process_one attempt
process_pending now receiver hooks s =
    process_loop now receiver hooks (list_pending now s)
      (record { processed = 0; succeeded = 0; failures = 0; store = s })
