-- ===== src/Hooks/Again.antt =====
-- What a replay leaves of the delivery that was replayed (services/garudaportal/handler/replay.go).
use gpass.Prelude.{
  lookup, insert, lookup-insert_self, lookup-insert_ne, ℕ, ◌≤◌, String, ◌≡◌, refl, ap, ◌∙◌, ◌⊎◌,
  inl, inr, true, false, Option, none, some, arith, ◌==◌, Bool-cases, Option-cases, ok,
  Result-cases, reply, fault,
}
use gpass.Portal.Keys.{AppStore, get_app}
use gpass.Hooks.Subscriptions.{WebhookSubscription, WebhookStore, get_webhook, owned_app}
use gpass.Hooks.Deliveries.{
  WebhookDelivery, DeliveryStore, delivery_stamped, create_delivery, get_delivery, delivery_moved,
  update_delivery, reset_for_replay, is_due,
}
use gpass.Hooks.Dispatch.{
  Response, not_built, failed, answered, is_success, record_answer, sent_delivery, deliver,
}
use gpass.Hooks.Replay.{redeliver, replay_delivery}

pub lookup-update_delivery :
    (now : ℕ) (id status : String) (code : ℕ) (body : String) (next : Option ℕ)
    (s t : DeliveryStore) (k : String)
    → (id == k) ≡ false
    → update_delivery now id status code body next s ≡ ok t
    → lookup k t ≡ lookup k s
unfolding update_delivery
lookup-update_delivery now id status code body next s t k f h = elim (Option-cases (lookup id s)) [
  | inl e ↦ ground (arith, e, h)
  | inr (d, e) ↦
      ground (arith, e, h, lookup-insert_ne id k (delivery_moved now status code body next d) s f)
]

lookup-record_answer :
    (now : ℕ) (id : String) (attempts : ℕ) (answer : Response) (s t : DeliveryStore) (k : String)
    → (id == k) ≡ false
    → record_answer now id attempts answer s ≡ ok t
    → lookup k t ≡ lookup k s
unfolding record_answer
lookup-record_answer now id attempts not_built s t k f h = ground (arith, h)
lookup-record_answer now id attempts (failed text) s t k f h =
    lookup-update_delivery now id "PENDING" 0 text _ s t k f h
lookup-record_answer now id attempts (answered code body) s t k f h =
    elim (Bool-cases (is_success code)) [
      | inl z ↦ lookup-update_delivery now id "DELIVERED" code body none s t k f (rw z at h)
      | inr z ↦ lookup-update_delivery now id "PENDING" code body _ s t k f (rw z at h)
    ]

-- `Deliver` writes only the delivery that it creates.
pub lookup-deliver :
    (now : ℕ) (uuid : String) (sub : WebhookSubscription) (event_type payload : String)
    (answer : Response) (s : DeliveryStore) (k : String)
    → (uuid == k) ≡ false
    → lookup k (deliver now uuid sub event_type payload answer s) ≡ lookup k s
unfolding deliver record_answer create_delivery
lookup-deliver now uuid sub event_type payload answer s k f =
    let d = sent_delivery sub.id event_type payload in
    let s' = insert uuid (delivery_stamped now uuid d) s in
    let fresh = lookup-insert_ne uuid k (delivery_stamped now uuid d) s f in
    elim (Result-cases (record_answer now uuid 0 answer s')) [
      | inl (t, e) ↦ rw (e, deliver) (lookup-record_answer now uuid 0 answer s' t k f e ∙ fresh)
      | inr (x, e) ↦ rw (e, deliver) fresh
    ]

-- the delivery as `ResetForReplay` writes it
abbrev pub reset_delivery : WebhookDelivery → WebhookDelivery
reset_delivery d = record d {
  status = "PENDING";
  attempts = 0;
  next_retry_at = none;
  delivered_at = none;
}

pub redeliver-leaves :
    (now : ℕ) (uuid id : String) (sub : WebhookSubscription) (d : WebhookDelivery)
    (answer : Response) (s : DeliveryStore)
    → lookup id s ≡ some d
    → (uuid == id) ≡ false
    → ((redeliver now uuid id sub d answer s).1 ≡ reply 200 (reset_delivery d))
      × (lookup id (redeliver now uuid id sub d answer s).0 ≡ some (reset_delivery d))
unfolding redeliver reset_for_replay get_delivery
redeliver-leaves now uuid id sub d answer s h f =
    let s' = insert id (reset_delivery d) s in
    let held : lookup id (deliver now uuid sub d.event_type d.payload answer s')
        ≡ some (reset_delivery d) =
      lookup-deliver now uuid sub d.event_type d.payload answer s' id f
      ∙ lookup-insert_self id (reset_delivery d) s in
    rw (h, redeliver, reset_for_replay) (rw (held, get_delivery) (refl, held))

-- A replay is refused, or it does what `redeliver` does.
pub replay_delivery_cases :
    (now : ℕ) (uuid user_id app_id id : String) (answer : Response) (apps : AppStore)
    (hooks : WebhookStore) (s : DeliveryStore)
    → ((status : ℕ) × (code : String) × (message : String) × (replay_delivery now uuid user_id
            app_id id answer apps hooks s
          ≡ (s, fault status code message))
        × (400 ≤ status))
      ⊎ ((d : WebhookDelivery) × (sub : WebhookSubscription) × (lookup id s ≡ some d)
          × (replay_delivery now uuid user_id app_id id answer apps hooks s
              ≡ redeliver now uuid id sub d answer s))
unfolding replay_delivery get_delivery get_webhook owned_app
replay_delivery_cases now uuid user_id app_id id answer apps hooks s =
    elim (Bool-cases (user_id == "")) [
      | inl e ↦ rw e (inl (_, _, _, refl, omega arith))
      | inr e ↦ elim (Result-cases (get_app app_id apps)) [
        | inr (x, g) ↦ rw (e, g) (inl (_, _, _, refl, omega arith))
        | inl (app, g) ↦ elim (Bool-cases (app.owner_user_id == user_id)) [
          | inr o ↦ rw (e, g) (rw o (inl (_, _, _, refl, omega arith)))
          | inl o ↦ elim (Option-cases (lookup id s)) [
            | inl l ↦ rw (e, g) (rw (o, l) (inl (_, _, _, refl, omega arith)))
            | inr (d, l) ↦ elim (Option-cases (lookup d.subscription_id hooks)) [
              | inl w ↦ rw (e, g) (rw (o, l) (rw w (inl (_, _, _, refl, omega arith))))
              | inr (sub, w) ↦ elim (Bool-cases (sub.app_id == app_id)) [
                | inr a ↦ rw (e, g) (rw (o, l) (rw w (rw a (inl (_, _, _, refl, omega arith)))))
                | inl a ↦ rw (e, g) (rw (o, l) (rw w (rw a (inr (d, sub, refl, refl)))))
              ]
            ]
          ]
        ]
      ]
    ]

-- A replay either fails with an error code of 400 or more and changes nothing, or it answers with
-- the delivery reset, and that delivery stands in the store still pending and due at once, whatever
-- the receiver answered.
pub replay_delivery-again :
    (now : ℕ) (uuid user_id app_id id : String) (answer : Response) (apps : AppStore)
    (hooks : WebhookStore) (s : DeliveryStore)
    → (uuid == id) ≡ false
    → ((status : ℕ) × (code : String) × (message : String) × (replay_delivery now uuid user_id
            app_id id answer apps hooks s
          ≡ (s, fault status code message))
        × (400 ≤ status))
      ⊎ ((d : WebhookDelivery) × (lookup id s ≡ some d)
          × ((replay_delivery now uuid user_id app_id id answer apps hooks s).1
              ≡ reply 200 (reset_delivery d))
          × (lookup id (replay_delivery now uuid user_id app_id id answer apps hooks s).0
              ≡ some (reset_delivery d))
          × ((t : ℕ) → is_due t (reset_delivery d) ≡ true))
unfolding is_due
replay_delivery-again now uuid user_id app_id id answer apps hooks s f =
    elim (replay_delivery_cases now uuid user_id app_id id answer apps hooks s) [
      | inl refused ↦ inl refused
      | inr (d, sub, l, e) ↦
          let (sent, held) = redeliver-leaves now uuid id sub d answer s l f in
          inr (d, l, ap (λ r. r.1) e ∙ sent, ap (λ r. lookup id r.0) e ∙ held, λ t. refl)
    ]
