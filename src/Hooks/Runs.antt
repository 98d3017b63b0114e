-- ===== src/Hooks/Runs.antt =====
-- Every delivery stands under its id, whatever writes the store: events that are sent, runs of the
-- worker and replays (services/garudaportal).
use gpass.Prelude.{
  lookup, insert, lookup-insert_ne, Each-insert, Each-lookup, insert-IsDict, ℕ, String, ◌≡◌, refl,
  ◌∙◌, inl, inr, false, Option, none, some, List, [], ◌∷◌, ◌==◌, Bool-cases, Option-cases,
  Result-cases,
}
use gpass.Hooks.Subscriptions.{WebhookSubscription, WebhookStore, get_webhook}
use gpass.Hooks.Dispatch.{
  Response, not_built, failed, answered, is_success, record_answer, sent_delivery, deliver,
}
use gpass.Hooks.Replay.{redeliver}
use gpass.Hooks.Again.{lookup-deliver, reset_delivery}
use gpass.Hooks.Deliveries.{
  WebhookDelivery, DeliveryStore, delivery_stamped, create_delivery, get_delivery, delivery_moved,
  update_delivery, reset_for_replay,
}
use gpass.Hooks.Worker.{Receiver, Cycle, kept, attempt, process_one, process_loop}
use gpass.Hooks.Settled.{IsKeyed}

IsKeyed-insert :
    (k : String) (d : WebhookDelivery) (s : DeliveryStore)
    → d.id ≡ k
    → IsKeyed s
    → IsKeyed (insert k d s)
IsKeyed-insert k d s e (keys, h) = (Each-insert _ k d s e keys, insert-IsDict k d s h)

IsKeyed-held :
    (id : String) (d : WebhookDelivery) (s : DeliveryStore)
    → IsKeyed s
    → lookup id s ≡ some d
    → d.id ≡ id
IsKeyed-held id d s (keys, h) l = Each-lookup _ id s d keys l

update_delivery-IsKeyed :
    (now : ℕ) (id status : String) (code : ℕ) (body : String) (next : Option ℕ) (s : DeliveryStore)
    → IsKeyed s
    → IsKeyed (kept s (update_delivery now id status code body next s))
unfolding update_delivery delivery_moved
update_delivery-IsKeyed now id status code body next s h = elim (Option-cases (lookup id s)) [
  | inl e ↦ rw (e, update_delivery) h
  | inr (d, e) ↦
      rw (e, update_delivery)
        (IsKeyed-insert id (delivery_moved now status code body next d) s (IsKeyed-held id d s h e)
          h)
]

record_answer-IsKeyed :
    (now : ℕ) (id : String) (attempts : ℕ) (answer : Response) (s : DeliveryStore)
    → IsKeyed s
    → IsKeyed (kept s (record_answer now id attempts answer s))
unfolding record_answer
record_answer-IsKeyed now id attempts not_built s h = h
record_answer-IsKeyed now id attempts (failed text) s h =
    update_delivery-IsKeyed now id "PENDING" 0 text _ s h
record_answer-IsKeyed now id attempts (answered code body) s h =
    elim (Bool-cases (is_success code)) [
      | inl z ↦ rw z (update_delivery-IsKeyed now id "DELIVERED" code body none s h)
      | inr z ↦ rw z (update_delivery-IsKeyed now id "PENDING" code body _ s h)
    ]

pub deliver-IsKeyed :
    (now : ℕ) (uuid : String) (sub : WebhookSubscription) (event_type payload : String)
    (answer : Response) (s : DeliveryStore)
    → IsKeyed s
    → IsKeyed (deliver now uuid sub event_type payload answer s)
unfolding deliver record_answer create_delivery
deliver-IsKeyed now uuid sub event_type payload answer s h =
    let d = delivery_stamped now uuid (sent_delivery sub.id event_type payload) in
    let h' = IsKeyed-insert uuid d s refl h in
    let s' = insert uuid d s in
    let sent = record_answer-IsKeyed now uuid 0 answer s' h' in
    elim (Result-cases (record_answer now uuid 0 answer s')) [
      | inl (t, e) ↦ rw (e, deliver) (rw e at sent)
      | inr (x, e) ↦ rw (e, deliver) h'
    ]

module _ (now : ℕ) (receiver : Receiver) (hooks : WebhookStore) where
  process_one-IsKeyed :
      (d : WebhookDelivery) (c : Cycle)
      → IsKeyed c.store
      → IsKeyed (process_one now receiver hooks d c).store
  unfolding process_one attempt
  process_one-IsKeyed d c h = elim (Result-cases (get_webhook d.subscription_id hooks)) [
    | inr (x, g) ↦ rw (g, process_one) h
    | inl (sub, g) ↦ elim (Bool-cases (sub.status == "ACTIVE")) [
      | inr a ↦ rw (g, process_one) (rw (a, attempt) h)
      | inl a ↦ elim (Result-cases (receiver d sub)) [
        | inr (text, r) ↦
            rw (g, process_one)
              (rw (a, attempt)
                (rw r (update_delivery-IsKeyed now d.id "PENDING" 0 text _ c.store h)))
        | inl ((code, body), r) ↦ elim (Bool-cases (is_success code)) [
          | inl z ↦
              rw (g, process_one)
                (rw (a, attempt)
                  (rw r
                    (rw z (update_delivery-IsKeyed now d.id "DELIVERED" code body none c.store h))))
          | inr z ↦
              rw (g, process_one)
                (rw (a, attempt)
                  (rw r (rw z (update_delivery-IsKeyed now d.id "PENDING" code body _ c.store h))))
        ]
      ]
    ]
  ]

  pub process_loop-IsKeyed :
      (ds : List WebhookDelivery) (c : Cycle)
      → IsKeyed c.store
      → IsKeyed (process_loop now receiver hooks ds c).store
  unfolding process_loop
  process_loop-IsKeyed [] c h = h
  process_loop-IsKeyed (d ∷ ds) c h =
      process_loop-IsKeyed ds (process_one now receiver hooks d c) (process_one-IsKeyed d c h)

pub redeliver-IsKeyed :
    (now : ℕ) (uuid id : String) (sub : WebhookSubscription) (d : WebhookDelivery)
    (answer : Response) (s : DeliveryStore)
    → lookup id s ≡ some d
    → IsKeyed s
    → IsKeyed (redeliver now uuid id sub d answer s).0
unfolding redeliver reset_for_replay
redeliver-IsKeyed now uuid id sub d answer s l h =
    let s' = insert id (reset_delivery d) s in
    let sent =
      deliver-IsKeyed now uuid sub d.event_type d.payload answer s'
        (IsKeyed-insert id (reset_delivery d) s (IsKeyed-held id d s h l) h) in
    rw (l, redeliver)
      (elim (Result-cases
        (get_delivery id (deliver now uuid sub d.event_type d.payload answer s'))) [
          | inl (x, e) ↦ rw e sent
          | inr (x, e) ↦ rw e sent
        ])

pub lookup-redeliver :
    (now : ℕ) (uuid id : String) (sub : WebhookSubscription) (d : WebhookDelivery)
    (answer : Response) (s : DeliveryStore) (k : String)
    → lookup id s ≡ some d
    → (uuid == k) ≡ false
    → (id == k) ≡ false
    → lookup k (redeliver now uuid id sub d answer s).0 ≡ lookup k s
unfolding redeliver reset_for_replay
lookup-redeliver now uuid id sub d answer s k l f g =
    let s' = insert id (reset_delivery d) s in
    let same =
      lookup-deliver now uuid sub d.event_type d.payload answer s' k f
      ∙ lookup-insert_ne id k (reset_delivery d) s g in
    rw (l, redeliver)
      (elim (Result-cases
        (get_delivery id (deliver now uuid sub d.event_type d.payload answer s'))) [
          | inl (x, e) ↦ rw e same
          | inr (x, e) ↦ rw e same
        ])
