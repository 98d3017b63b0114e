-- ===== src/Portal/Metering.antt =====
-- The daily limit of an app: what services/garudaportal/store/usage.go counts, and what
-- handler/validate.go makes of it.
use gpass.Prelude.{
  length, select, pos, ltb_ℤ, ℕ, ◌+◌, String, ◌≡◌, sym, ap, ◌∙◌, inl, inr, Bool, true, ◌&&◌, some,
  List, [], ◌∷◌, arith, ◌==◌, eq_iff, if◌then◌else◌, Bool-cases, Option-cases, ok, reply,
}
use gpass.Portal.Keys.{ApiKey, KeyStore, get_by_hash, App, AppStore, get_app}
use gpass.Portal.Validation.{Gate, KeyValidationResult, validate}
use gpass.Portal.Admission.{validate_iff}
use gpass.Portal.Endpoint.{metered, validate_key}
use gpass.Portal.Usage.{UsageKey, UsageStore, same_key, increment, get_daily_usage}

-- the calls of `Increment`, in order
unfoldable pub increment_all : List (UsageKey × Bool) → UsageStore → UsageStore
increment_all [] s = s
increment_all ((k, is_error) ∷ calls) s = increment_all calls (increment k is_error s)

abbrev pub is_call_of : String → String → UsageKey × Bool → Bool
is_call_of app_id date c = c.0.app_id == app_id && c.0.date == date

same_key_lem : (j k : UsageKey) → same_key j k ≡ true → (j.app_id ≡ k.app_id) × (j.date ≡ k.date)
same_key_lem j k h = ground (arith, h, eq_iff j.app_id k.app_id, eq_iff j.date k.date)

get_daily_usage-increment :
    (app_id date : String) (k : UsageKey) (is_error : Bool) (s : UsageStore)
    → get_daily_usage app_id date (increment k is_error s)
      ≡ get_daily_usage app_id date s + (if k.app_id == app_id && k.date == date then 1 else 0)
unfolding get_daily_usage increment
get_daily_usage-increment app_id date k is_error [] = ground arith
get_daily_usage-increment app_id date k is_error ((j, r) ∷ s) = elim (Bool-cases (same_key j k)) [
  | inr n ↦ rw (n, increment) (ground (arith, get_daily_usage-increment app_id date k is_error s))
  | inl y ↦
      let (app_same, date_same) = same_key_lem j k y in
      rw (y, increment) (rw (app_same, date_same) (ground arith))
]

get_daily_usage-increment_all :
    (app_id date : String) (calls : List (UsageKey × Bool)) (s : UsageStore)
    → get_daily_usage app_id date (increment_all calls s)
      ≡ get_daily_usage app_id date s + length (select (is_call_of app_id date) calls)
unfolding increment_all select
get_daily_usage-increment_all app_id date [] s = omega arith
get_daily_usage-increment_all app_id date ((k, is_error) ∷ calls) s = ground (
  arith,
  get_daily_usage-increment_all app_id date calls (increment k is_error s),
  get_daily_usage-increment app_id date k is_error s,
)

validate_key-accepts :
    (gate : Gate) (now : ℕ) (api_key : String) (apps : AppStore) (keys : KeyStore)
    (r : KeyValidationResult)
    → (validate_key gate now (some api_key) apps keys).1 ≡ reply 200 r
    → (validate gate now api_key apps keys ≡ some r) × (r.valid ≡ true)
unfolding validate_key
validate_key-accepts gate now api_key apps keys r h = elim (Bool-cases (api_key == "")) [
  | inl e ↦ (let sent = rw (e, validate_key) at h in absurd (ground (arith, sent)))
  | inr e ↦ elim (Option-cases (validate gate now api_key apps keys)) [
    | inl v ↦ (let sent = rw v at (rw (e, validate_key) at h) in absurd (ground (arith, sent)))
    | inr (x, v) ↦
        let sent = rw v at (rw (e, validate_key) at h) in
        elim (Bool-cases x.valid) [
          | inl y ↦
              let same = rw y at sent in
              (v ∙ ap some (ground (arith, same)), ground (arith, same, y))
          | inr n ↦ let same = rw n at sent in absurd (ground (arith, same, n))
        ]
  ]
]

-- If the endpoint answers 200 for a key, its app has made fewer calls on that day than its limit,
-- counted over all calls that were ever recorded, in whatever order, for whatever endpoints.
pub validate_key-metered :
    (hash_key : String → String) (today : String) (now : ℕ) (api_key : String) (apps : AppStore)
    (keys : KeyStore) (calls : List (UsageKey × Bool)) (r : KeyValidationResult)
    → (validate_key
        (metered hash_key today (increment_all calls []))
        now
        (some api_key)
        apps
        keys).1
      ≡ reply 200 r
    → (key : ApiKey) × (app : App) × (get_by_hash (hash_key api_key) keys ≡ ok key)
      × (get_app key.app_id apps ≡ ok app)
      × (ltb_ℤ (pos (length (select (is_call_of key.app_id today) calls))) app.daily_limit ≡ true)
unfolding get_daily_usage
validate_key-metered hash_key today now api_key apps keys calls r h =
    let gate = metered hash_key today (increment_all calls []) in
    let w =
      (validate_iff gate now api_key apps keys r).0
        (validate_key-accepts gate now api_key apps keys r h) in
    let count : get_daily_usage w.key.app_id today (increment_all calls []) ≡ w.calls =
      ground (arith, w.counted) in
    let all : w.calls ≡ length (select (is_call_of w.key.app_id today) calls) =
      omega (arith, sym count ∙ get_daily_usage-increment_all w.key.app_id today calls []) in
    (w.key, w.app, w.found, w.app_found, rw (← all) w.below)
