-- ===== src/Hooks/Settled.antt =====
-- What one run of the worker (services/garudaportal/worker/webhook.go) does to each delivery,
-- without its loop.
use gpass.Prelude.{
  eq_of_test, lookup, Each, IsDict, lookup-insert, pos, ℕ, ◌+◌, String, ◌≡◌, refl, inl, inr, not,
  Option, none, some, ◌==◌, if◌then◌else◌, Bool-cases, Result, ok, err, Result-cases,
}
use gpass.Hooks.Subscriptions.{WebhookStore, get_webhook}
use gpass.Hooks.Deliveries.{WebhookDelivery, DeliveryStore, delivery_moved, update_delivery, is_due}
use gpass.Hooks.Dispatch.{next_retry_delay, is_success}
use gpass.Hooks.Worker.{Receiver, Cycle, kept, attempt, process_one}

-- what an answer makes of a delivery that was tried
unfoldable pub settled_by : ℕ → WebhookDelivery → Result String (ℕ × String) → WebhookDelivery
settled_by now d (err text) =
    delivery_moved now "PENDING" 0 text (some (now + next_retry_delay (pos d.attempts))) d
settled_by now d (ok (code, body)) =
    if is_success code
    then delivery_moved now "DELIVERED" code body none d
    else delivery_moved now "PENDING" code body (some (now + next_retry_delay (pos d.attempts))) d

-- A delivery that is due is tried if its subscription exists and is active.
unfoldable pub settled : ℕ → Receiver → WebhookStore → WebhookDelivery → WebhookDelivery
settled now receiver hooks d = elim (get_webhook d.subscription_id hooks) [
  | err _ ↦ d
  | ok sub ↦ if not (sub.status == "ACTIVE") then d else settled_by now d (receiver d sub)
]

unfoldable pub after_cycle : ℕ → Receiver → WebhookStore → WebhookDelivery → WebhookDelivery
after_cycle now receiver hooks d = if is_due now d then settled now receiver hooks d else d

-- Every delivery stands under its id, and no id twice.
abbrev pub IsKeyed : DeliveryStore → Type 0
IsKeyed s = Each (λ k (d : WebhookDelivery). d.id ≡ k) s × IsDict s

-- the store in which `d` has become `e`
abbrev pub Becomes : WebhookDelivery → WebhookDelivery → DeliveryStore → DeliveryStore → Type 0
Becomes d e s t = (k : String) → lookup k t ≡ (if d.id == k then some e else lookup k s)

module _ (now : ℕ) (receiver : Receiver) (hooks : WebhookStore) where
  stays : (d : WebhookDelivery) (s : DeliveryStore) → lookup d.id s ≡ some d → Becomes d d s s
  stays d s h k = elim (Bool-cases (d.id == k)) [
    | inr e ↦ rw e refl
    | inl e ↦ rw e (rw (← eq_of_test d.id k e) h)
  ]

  updated :
      (d : WebhookDelivery) (s : DeliveryStore) (status : String) (code : ℕ) (body : String)
      (next : Option ℕ)
      → lookup d.id s ≡ some d
      → Becomes d
          (delivery_moved now status code body next d)
          s
          (kept s (update_delivery now d.id status code body next s))
  unfolding update_delivery
  updated d s status code body next h k =
      rw (h, update_delivery) (lookup-insert d.id k (delivery_moved now status code body next d) s)

  pub process_one-Becomes :
      (d : WebhookDelivery) (c : Cycle)
      → lookup d.id c.store ≡ some d
      → Becomes d (settled now receiver hooks d) c.store (process_one now receiver hooks d c).store
  unfolding process_one attempt settled settled_by
  process_one-Becomes d c h k = elim (Result-cases (get_webhook d.subscription_id hooks)) [
    | inr (x, g) ↦ rw (g, process_one, settled) (stays d c.store h k)
    | inl (sub, g) ↦ elim (Bool-cases (sub.status == "ACTIVE")) [
      | inr a ↦ rw (g, process_one, settled) (rw (a, attempt) (stays d c.store h k))
      | inl a ↦ elim (Result-cases (receiver d sub)) [
        | inr (text, r) ↦
            rw (g, process_one, settled)
              (rw (a, attempt) (rw (r, settled_by) (updated d c.store "PENDING" 0 text _ h k)))
        | inl ((code, body), r) ↦ elim (Bool-cases (is_success code)) [
          | inl z ↦
              rw (g, process_one, settled)
                (rw (a, attempt)
                  (rw (r, settled_by) (rw z (updated d c.store "DELIVERED" code body none h k))))
          | inr z ↦
              rw (g, process_one, settled)
                (rw (a, attempt)
                  (rw (r, settled_by) (rw z (updated d c.store "PENDING" code body _ h k))))
        ]
      ]
    ]
  ]
