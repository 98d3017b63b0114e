-- ===== src/Portal/AppLife.antt =====
-- What becomes of apps under the handlers of services/garudaportal/handler/app.go.
use gpass.Prelude.{
  eq_of_test, lookup, insert, Each, lookup-insert_self, lookup-insert_ne, lookup-insert_fresh,
  Each-insert, Each-lookup, pos, ℕ, String, ◌≡◌, refl, sym, ◌∙◌, ◌⊎◌, inl, inr, Option, none, some,
  [], arith, ◌==◌, Bool-cases, Option-cases,
}
use gpass.Portal.Keys.{App, AppStore, get_app}
use gpass.Portal.Apps.{
  AppUpdate, app_stamped, create_app, app_updated, update_app, CreateAppRequest, new_app,
  handle_create_app, handle_get_app, handle_update_app,
}

-- a call of a handler that writes the store; a new app gets a fresh id
pub data AppStep : AppStore → AppStore → Type 0 where
  app_requested :
      {s : AppStore} (now : ℕ) (uuid user_id : String) (body : Option CreateAppRequest)
      → lookup uuid s ≡ none
      → AppStep s (handle_create_app now uuid user_id body s).0
  app_edited :
      {s : AppStore} (now : ℕ) (user_id id : String) (body : Option AppUpdate)
      → AppStep s (handle_update_app now user_id id body s).0

pub data AppReach (s : AppStore) : AppStore → Type 0 where
  start : AppReach s s
  next : {t u : AppStore} → AppReach s t → AppStep t u → AppReach s u

-- The sandbox app that every developer gets: nobody raises its limit.
pub record IsSandbox (app : App) : Type 0 where
  pub sandbox : app.environment ≡ "sandbox"
  pub free : app.tier ≡ "free"
  pub limited : app.daily_limit ≡ pos 100
  pub active : app.status ≡ "ACTIVE"

handle_create_app_cases :
    (now : ℕ) (uuid user_id : String) (body : Option CreateAppRequest) (s : AppStore)
    → ((handle_create_app now uuid user_id body s).0 ≡ s)
      ⊎ ((req : CreateAppRequest) × ((handle_create_app now uuid user_id body s).0
            ≡ insert uuid (app_stamped now uuid (new_app user_id req)) s))
unfolding handle_create_app create_app
handle_create_app_cases now uuid user_id none s = inl (ground arith)
handle_create_app_cases now uuid user_id (some req) s = elim (Bool-cases (user_id == "")) [
  | inl e ↦ inl (rw e refl)
  | inr e ↦ elim (Bool-cases (req.name == "")) [
    | inl m ↦ inl (rw e (rw m refl))
    | inr m ↦ inr (req, rw e (rw m refl))
  ]
]

handle_update_app_cases :
    (now : ℕ) (user_id id : String) (body : Option AppUpdate) (s : AppStore)
    → ((handle_update_app now user_id id body s).0 ≡ s)
      ⊎ ((app : App) × (updates : AppUpdate) × (lookup id s ≡ some app)
          × (app.owner_user_id ≡ user_id)
          × ((handle_update_app now user_id id body s).0
              ≡ insert id (app_updated now updates app) s))
unfolding handle_update_app handle_get_app update_app get_app
handle_update_app_cases now user_id id body s = elim (Bool-cases (user_id == "")) [
  | inl e ↦ inl (rw (e, handle_update_app, handle_get_app) refl)
  | inr e ↦ elim (Bool-cases (id == "")) [
    | inl m ↦ inl (rw (e, handle_update_app, handle_get_app) (rw m refl))
    | inr m ↦ elim (Option-cases (lookup id s)) [
      | inl l ↦ inl (rw (e, handle_update_app, handle_get_app) (rw m (rw l refl)))
      | inr (app, l) ↦ elim (Bool-cases (app.owner_user_id == user_id)) [
        | inr o ↦ inl (rw (e, handle_update_app, handle_get_app) (rw m (rw l (rw o refl))))
        | inl o ↦ elim (Option-cases body) [
          | inl b ↦ inl (rw (e, handle_update_app, handle_get_app) (rw m (rw l (rw o (rw b refl)))))
          | inr (updates, b) ↦ inr (
            app,
            updates,
            l,
            eq_of_test app.owner_user_id user_id o,
            rw (e, handle_update_app, handle_get_app)
                (rw m (rw (l, get_app) (rw o (rw b (rw (l, update_app) refl))))),
          )
        ]
      ]
    ]
  ]
]

AppStep-held :
    {s t : AppStore} (id : String) (app : App)
    → AppStep s t
    → lookup id s ≡ some app
    → (later : App) × (lookup id t ≡ some later) × (later.owner_user_id ≡ app.owner_user_id)
AppStep-held {s = s} id app (app_requested now uuid user_id body fresh) h =
    elim (handle_create_app_cases now uuid user_id body s) [
      | inl e ↦ (app, rw e h, refl)
      | inr (req, e) ↦ (app, rw e (lookup-insert_fresh uuid id _ app s fresh h), refl)
    ]
AppStep-held {s = s} id app (app_edited now user_id j body) h =
    elim (handle_update_app_cases now user_id j body s) [
      | inl e ↦ (app, rw e h, refl)
      | inr (held, updates, l, owner, e) ↦ elim (Bool-cases (j == id)) [
        | inr n ↦ (app, rw e (lookup-insert_ne j id _ s n ∙ h), refl)
        | inl y ↦
            let same : some held ≡ some app = sym l ∙ rw (eq_of_test j id y) h in
            (
              app_updated now updates held,
              rw e
                  (rw (eq_of_test j id y) (lookup-insert_self id (app_updated now updates held) s)),
              ground (arith, same),
            )
      ]
    ]

AppStep-IsSandbox :
    {s t : AppStore}
    → AppStep s t
    → Each (λ k app. IsSandbox app) s
    → Each (λ k app. IsSandbox app) t
AppStep-IsSandbox {s = s} (app_requested now uuid user_id body fresh) h =
    elim (handle_create_app_cases now uuid user_id body s) [
      | inl e ↦ rw e h
      | inr (req, e) ↦ rw e (
          Each-insert _ uuid _ s
            (record { sandbox = refl; free = refl; limited = refl; active = refl }) h)
    ]
AppStep-IsSandbox {s = s} (app_edited now user_id j body) h =
    elim (handle_update_app_cases now user_id j body s) [
      | inl e ↦ rw e h
      | inr (held, updates, l, owner, e) ↦
          let kept = Each-lookup (λ k app. IsSandbox app) j s held h l in
          rw e (
            Each-insert _ j _ s
              (record {
                sandbox = kept.sandbox;
                free = kept.free;
                limited = kept.limited;
                active = kept.active;
              })
              h)
    ]

AppReach-IsSandbox : {s : AppStore} → AppReach [] s → Each (λ k app. IsSandbox app) s
AppReach-IsSandbox start = tt
AppReach-IsSandbox (next r step) = AppStep-IsSandbox step (AppReach-IsSandbox r)

AppReach-held :
    {s t : AppStore} (id : String) (app : App)
    → AppReach s t
    → lookup id s ≡ some app
    → (later : App) × (lookup id t ≡ some later) × (later.owner_user_id ≡ app.owner_user_id)
AppReach-held id app start h = (app, h, refl)
AppReach-held id app (next r step) h =
    let (mid, held, owner) = AppReach-held id app r h in
    let (later, found, same) = AppStep-held id mid step held in (later, found, same ∙ owner)

AppReach-join : {s t u : AppStore} → AppReach s t → AppReach t u → AppReach s u
AppReach-join r start = r
AppReach-join r (next q step) = next (AppReach-join r q) step

-- Whatever the app handlers are called with from the empty store on, with fresh ids for new apps: an
-- app that is stored is still there after further calls, has the owner that it had, and is an active
-- sandbox app of the free tier with a limit of 100 calls a day.
pub AppReach-kept :
    {s t : AppStore} (id : String) (app : App)
    → AppReach [] s
    → AppReach s t
    → lookup id s ≡ some app
    → (later : App) × (lookup id t ≡ some later)
      × (later.owner_user_id ≡ app.owner_user_id)
      × IsSandbox later
AppReach-kept {t = t} id app r q h =
    let (later, found, same) = AppReach-held id app q h in
    (
      later,
      found,
      same,
      Each-lookup (λ k app. IsSandbox app) id t later (AppReach-IsSandbox (AppReach-join r q))
          found,
    )
