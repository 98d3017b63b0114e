-- ===== src/Hooks/Cycles.antt =====
-- One run of the worker as one pass over the deliveries.
use gpass.Prelude.{
  eq_of_test, length, find_first, lookup, ℕ, suc, ◌+◌, String, ◌≡◌, refl, ◌∙◌, inl, inr, false,
  Option, none, some, List, [], ◌∷◌, arith, ◌==◌, eq_iff, Bool-cases, Option-cases, Result-cases,
}
use gpass.Hooks.Subscriptions.{WebhookStore, get_webhook}
use gpass.Hooks.Deliveries.{WebhookDelivery, DeliveryStore}
use gpass.Hooks.Worker.{Receiver, Cycle, attempt, process_one, process_loop}
use gpass.Hooks.Settled.{settled, Becomes, process_one-Becomes}

-- Each of the deliveries stands in the store as it is, and no two have the same id.
unfoldable pub IsListed : List WebhookDelivery → DeliveryStore → Type 0
IsListed [] s = Unit
IsListed (d ∷ ds) s =
    (lookup d.id s ≡ some d)
    × (find_first (λ (e : WebhookDelivery). e.id == d.id) ds ≡ none)
    × IsListed ds s

-- what a key leads to after the deliveries have become what `f` makes of them
abbrev pub overlaid :
    (WebhookDelivery → WebhookDelivery)
    → List WebhookDelivery
    → DeliveryStore
    → String
    → Option WebhookDelivery
overlaid f ds s k = elim (find_first (λ (d : WebhookDelivery). d.id == k) ds) [
  | none ↦ lookup k s
  | some d ↦ some (f d)
]

module _ (now : ℕ) (receiver : Receiver) (hooks : WebhookStore) where
  IsListed-Becomes :
      (d e : WebhookDelivery) (ds : List WebhookDelivery) (s t : DeliveryStore)
      → find_first (λ (x : WebhookDelivery). x.id == d.id) ds ≡ none
      → Becomes d e s t
      → IsListed ds s
      → IsListed ds t
  unfolding IsListed find_first
  IsListed-Becomes d e [] s t absent b h = tt
  IsListed-Becomes d e (x ∷ ds) s t absent b (held, apart, h) =
      let other : (x.id == d.id) ≡ false = ground (arith, absent) in
      (
        ground (arith, b x.id, eq_iff d.id x.id, eq_iff x.id d.id, other, held),
        apart,
        IsListed-Becomes d e ds s t (ground (arith, absent)) b h,
      )

  pub process_loop-overlaid :
      (ds : List WebhookDelivery) (c : Cycle) (k : String)
      → IsListed ds c.store
      → lookup k (process_loop now receiver hooks ds c).store
        ≡ overlaid (settled now receiver hooks) ds c.store k
  unfolding process_loop IsListed find_first
  process_loop-overlaid [] c k h = refl
  process_loop-overlaid (d ∷ ds) c k (held, apart, h) =
      let c' = process_one now receiver hooks d c in
      let b = process_one-Becomes now receiver hooks d c held in
      let h' = IsListed-Becomes d (settled now receiver hooks d) ds c.store c'.store apart b h in
      process_loop-overlaid ds c' k h' ∙ elim (Bool-cases (d.id == k)) [
        | inl e ↦
            let gone : find_first (λ (x : WebhookDelivery). x.id == k) ds ≡ none =
              rw (← eq_of_test d.id k e) apart in
            rw (e, gone, overlaid, find_first) (b k ∙ rw e refl)
        | inr e ↦
            rw (e, overlaid, find_first)
              (elim (Option-cases (find_first (λ (x : WebhookDelivery). x.id == k) ds)) [
                | inl f ↦ rw (f, overlaid) (b k ∙ rw e refl)
                | inr (x, f) ↦ rw (f, overlaid) refl
              ])
      ]

  processed-process_one :
      (d : WebhookDelivery) (c : Cycle)
      → (process_one now receiver hooks d c).processed ≡ suc c.processed
  unfolding process_one attempt
  processed-process_one d c = ground (arith, Result-cases (get_webhook d.subscription_id hooks))

  pub processed-process_loop :
      (ds : List WebhookDelivery) (c : Cycle)
      → (process_loop now receiver hooks ds c).processed ≡ c.processed + length ds
  unfolding process_loop
  processed-process_loop [] c = omega arith
  processed-process_loop (d ∷ ds) c = omega (
    arith,
    processed-process_loop ds (process_one now receiver hooks d c),
    processed-process_one d c,
  )
