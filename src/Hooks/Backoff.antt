-- ===== src/Hooks/Backoff.antt =====
-- When a delivery is tried again: the delays of services/garudaportal/webhook/dispatcher.go as the
-- worker uses them.
use gpass.Prelude.{
  lookup, pos, ℕ, zero, suc, ◌+◌, ◌*◌, ◌≤◌, String, ◌≡◌, refl, ap, ◌∙◌, ◌⊎◌, inl, inr, Bool, true,
  false, not, some, map_some, arith, ◌==◌, ltb, Bool-cases, Result, ok, err, Result-cases,
}
use gpass.Hooks.Deliveries.{WebhookDelivery, DeliveryStore, delivery_moved, is_due}
use gpass.Hooks.Dispatch.{minute, delay_at, next_retry_delay, is_success}
use gpass.Hooks.Settled.{settled_by, settled, after_cycle, IsKeyed}
use gpass.Hooks.Whole.{process_pending_lem}
use gpass.Hooks.Subscriptions.{WebhookStore, get_webhook}
use gpass.Hooks.Worker.{Receiver, process_pending}

next_retry_delay_bounds :
    (n : ℕ) → (minute ≤ next_retry_delay (pos n)) × (next_retry_delay (pos n) ≤ 1440 * minute)
unfolding next_retry_delay delay_at
next_retry_delay_bounds zero = (omega arith, omega arith)
next_retry_delay_bounds (suc zero) = (omega arith, omega arith)
next_retry_delay_bounds (suc (suc zero)) = (omega arith, omega arith)
next_retry_delay_bounds (suc (suc (suc zero))) = (omega arith, omega arith)
next_retry_delay_bounds (suc (suc (suc (suc n)))) = (omega arith, omega arith)

-- What a try leaves: a delivery that is delivered, or that is pending and due again after a delay of a
-- minute at least and a day at most.
abbrev pub IsTried : ℕ → ℕ → WebhookDelivery → Type 0
IsTried now t e =
    (e.status ≡ "DELIVERED")
    ⊎ ((delay : ℕ) × (minute ≤ delay)
        × (delay ≤ 1440 * minute)
        × (e.status ≡ "PENDING")
        × (is_due t e ≡ not (ltb t (now + delay))))

settled_by-IsTried :
    (now t : ℕ) (d : WebhookDelivery) (answer : Result String (ℕ × String))
    → IsTried now t (settled_by now d answer)
unfolding settled_by is_due delivery_moved
settled_by-IsTried now t d (err text) =
    let (low, high) = next_retry_delay_bounds d.attempts in
    inr (next_retry_delay (pos d.attempts), low, high, refl, refl)
settled_by-IsTried now t d (ok (code, body)) =
    let (low, high) = next_retry_delay_bounds d.attempts in
    elim (Bool-cases (is_success code)) [
      | inl z ↦ rw z (inl refl)
      | inr z ↦ rw z (inr (next_retry_delay (pos d.attempts), low, high, refl, refl))
    ]

-- The subscription is there and active.
abbrev pub is_listening : String → WebhookStore → Bool
is_listening id hooks = elim (get_webhook id hooks) [
  | err _ ↦ false
  | ok sub ↦ sub.status == "ACTIVE"
]

settled_cases :
    (now t : ℕ) (receiver : Receiver) (hooks : WebhookStore) (d : WebhookDelivery)
    → ((is_listening d.subscription_id hooks ≡ false) × (settled now receiver hooks d ≡ d))
      ⊎ ((is_listening d.subscription_id hooks ≡ true)
          × IsTried now t (settled now receiver hooks d))
unfolding settled
settled_cases now t receiver hooks d = elim (Result-cases (get_webhook d.subscription_id hooks)) [
  | inr (x, g) ↦ inl (rw (g, is_listening) refl, rw (g, settled) refl)
  | inl (sub, g) ↦ elim (Bool-cases (sub.status == "ACTIVE")) [
    | inr a ↦ inl (rw (g, is_listening) a, rw (g, settled) (rw a refl))
    | inl a ↦ inr (
      rw (g, is_listening) a,
      rw (g, settled) (rw a (settled_by-IsTried now t d (receiver d sub))),
    )
  ]
]

-- In a store where every delivery stands under its id, a run of the worker gives up no delivery that is
-- due, however often it was tried: it leaves it as it is, if its subscription is missing or not
-- active, and else the delivery is delivered, or it is pending and due again after a delay of a minute
-- at least and a day at most.
pub process_pending-backoff :
    (now t : ℕ) (receiver : Receiver) (hooks : WebhookStore) (s : DeliveryStore) (k : String)
    (d : WebhookDelivery)
    → IsKeyed s
    → lookup k s ≡ some d
    → is_due now d ≡ true
    → (e : WebhookDelivery) × (lookup k (process_pending now receiver hooks s).store ≡ some e)
      × (((is_listening d.subscription_id hooks ≡ false) × (e ≡ d))
          ⊎ ((is_listening d.subscription_id hooks ≡ true) × IsTried now t e))
unfolding after_cycle
process_pending-backoff now t receiver hooks s k d keyed held due = (
  settled now receiver hooks d,
  (process_pending_lem now receiver hooks s keyed).0 k
      ∙ ap (map_some (after_cycle now receiver hooks)) held
      ∙ ap some (rw due refl),
  settled_cases now t receiver hooks d,
)
