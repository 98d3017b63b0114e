-- ===== src/Hooks/Whole.antt =====
-- `ProcessPending` of the webhook worker (services/garudaportal/worker/webhook.go) on a whole store.
use gpass.Prelude.{
  length, select, find_first, lookup, values, ℕ, String, ◌≡◌, refl, ◌∙◌, inl, inr, Bool, Option,
  none, some, map_some, [], ◌∷◌, arith, ◌==◌, eq_iff, if◌then◌else◌, Bool-cases, Option-cases,
}
use gpass.Hooks.Subscriptions.{WebhookStore}
use gpass.Hooks.Deliveries.{WebhookDelivery, DeliveryStore, is_due, list_pending}
use gpass.Hooks.Worker.{Receiver, Cycle, process_pending}
use gpass.Hooks.Settled.{after_cycle, IsKeyed}
use gpass.Hooks.Cycles.{IsListed, overlaid, process_loop-overlaid, processed-process_loop}

-- what is found, if it passes the test
passing : (WebhookDelivery → Bool) → Option WebhookDelivery → Option WebhookDelivery
passing p none = none
passing p (some d) = if p d then some d else none

module _ (p : WebhookDelivery → Bool) where
  find_first-select :
      (m : DeliveryStore) (k : String)
      → IsKeyed m
      → find_first (λ (d : WebhookDelivery). d.id == k) (select p (values m))
        ≡ passing p (lookup k m)
  unfolding find_first select values lookup passing
  find_first-select [] k h = refl
  find_first-select ((j, d) ∷ m) k ((same, keys), (fresh, h)) =
      ground (arith, find_first-select m k (keys, h), same, fresh, eq_iff j k, eq_iff d.id k)

  select-IsListed :
      (m s : DeliveryStore)
      → IsKeyed m
      → ((k : String) (d : WebhookDelivery) → lookup k m ≡ some d → lookup k s ≡ some d)
      → IsListed (select p (values m)) s
  unfolding IsListed select values lookup passing
  select-IsListed [] s h sub = tt
  select-IsListed ((j, d) ∷ m) s ((same, keys), (fresh, h)) sub =
      let rest : IsListed (select p (values m)) s =
        select-IsListed m s (keys, h) (λ k e l. sub k e (ground (arith, l, fresh, eq_iff j k))) in
      elim (Bool-cases (p d)) [
        | inr e ↦ rw e rest
        | inl e ↦ rw e (
          sub d.id d (ground (arith, eq_iff j d.id, same)),
          find_first-select m d.id (keys, h) ∙ rw same (rw fresh refl),
          rest,
        )
      ]

module _ (now : ℕ) (receiver : Receiver) (hooks : WebhookStore) where
  -- One run of the worker makes of every delivery that is due what the answer for it says, whatever
  -- the order of the run, leaves the others alone, and counts the deliveries that it took up.
  pub process_pending_lem :
      (s : DeliveryStore)
      → IsKeyed s
      → ((k : String)
          → lookup k (process_pending now receiver hooks s).store
            ≡ map_some (after_cycle now receiver hooks) (lookup k s))
        × ((process_pending now receiver hooks s).processed ≡ length (list_pending now s))
  unfolding process_pending list_pending after_cycle passing
  process_pending_lem s h =
      let due = list_pending now s in
      let c : Cycle = record { processed = 0; succeeded = 0; failures = 0; store = s } in
      (
        λ k.
            process_loop-overlaid now receiver hooks due c k
              (select-IsListed (is_due now) s s h (λ k d l. l))
            ∙ rw (find_first-select (is_due now) s k h, overlaid)
                (ground (arith, Option-cases (lookup k s))),
        omega (arith, processed-process_loop now receiver hooks due c),
      )
