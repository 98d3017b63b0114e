-- ===== src/Portal/Admission.antt =====
-- When the validator of services/garudaportal/apikey/validator.go lets a key through.
use gpass.Prelude.{
  pos, ltb_ℤ, ℕ, String, ◌≡◌, refl, sym, ap, ◌∙◌, ◌↔◌, inl, inr, true, false, some, arith, ◌==◌,
  Bool-cases, Option-cases, ok, Result-cases,
}
use gpass.Portal.Keys.{ApiKey, KeyStore, get_by_hash, App, AppStore, get_app}
use gpass.Portal.Validation.{
  Gate, KeyValidationResult, accepted, is_expired, admit, validate, rejected,
}

-- The key's hash leads to an active key that has not expired, of an active app that has made fewer
-- calls today than its limit; the answer describes that key and that app.
pub record IsAdmitted (gate : Gate) (now : ℕ) (api_key : String) (apps : AppStore) (keys : KeyStore)
    (r : KeyValidationResult) : Type 0 where
  pub key : ApiKey
  pub app : App
  pub calls : ℕ
  pub present : (api_key == "") ≡ false
  pub found : get_by_hash (gate.hash_key api_key) keys ≡ ok key
  pub active : (key.status == "ACTIVE") ≡ true
  pub unexpired : is_expired now key.expires_at ≡ false
  pub app_found : get_app key.app_id apps ≡ ok app
  pub app_active : (app.status == "ACTIVE") ≡ true
  pub counted : gate.daily_count key.app_id ≡ some calls
  pub below : ltb_ℤ (pos calls) app.daily_limit ≡ true
  pub answer : r ≡ accepted key app

module _ (gate : Gate) (now : ℕ) (api_key : String) (apps : AppStore) (keys : KeyStore) where
  -- a rejection is no valid answer
  not_rejected :
      (error : String) (r : KeyValidationResult)
      → validate gate now api_key apps keys ≡ rejected error
      → validate gate now api_key apps keys ≡ some r
      → r.valid ≡ true
      → ⊥
  not_rejected error r e h v = ground (arith, e, h, v)

  admit_cases :
      (k : ApiKey) (app : App) (r : KeyValidationResult)
      → admit gate k app ≡ some r
      → r.valid ≡ true
      → ((app.status == "ACTIVE") ≡ true)
        × ((n : ℕ) × (gate.daily_count k.app_id ≡ some n)
            × (ltb_ℤ (pos n) app.daily_limit ≡ true)
            × (r ≡ accepted k app))
  unfolding admit
  admit_cases k app r h v = elim (Bool-cases (app.status == "ACTIVE")) [
    | inr a ↦ absurd (ground (arith, a, h, v))
    | inl a ↦ elim (Option-cases (gate.daily_count k.app_id)) [
      | inl c ↦ absurd (ground (arith, a, c, h, v))
      | inr (n, c) ↦ elim (Bool-cases (ltb_ℤ (pos n) app.daily_limit)) [
        | inr l ↦ absurd (ground (arith, a, c, l, h, v))
        | inl l ↦ (a, (n, c, l, ground (arith, a, c, l, h)))
      ]
    ]
  ]

  admitted :
      (r : KeyValidationResult)
      → validate gate now api_key apps keys ≡ some r
      → r.valid ≡ true
      → IsAdmitted gate now api_key apps keys r
  unfolding validate
  admitted r h v = elim (Bool-cases (api_key == "")) [
    | inl p ↦ absurd (not_rejected "invalid_key" r (rw p refl) h v)
    | inr p ↦ elim (Result-cases (get_by_hash (gate.hash_key api_key) keys)) [
      | inr (x, f) ↦ absurd (not_rejected "invalid_key" r (rw p (rw f refl)) h v)
      | inl (k, f) ↦ elim (Bool-cases (k.status == "ACTIVE")) [
        | inr a ↦ absurd (not_rejected "key_revoked" r (rw p (rw f (rw a refl))) h v)
        | inl a ↦ elim (Bool-cases (is_expired now k.expires_at)) [
          | inl u ↦ absurd (not_rejected "key_expired" r (rw p (rw f (rw a (rw u refl)))) h v)
          | inr u ↦ elim (Result-cases (get_app k.app_id apps)) [
            | inr (x, g) ↦
                absurd (not_rejected "invalid_key" r (rw p (rw f (rw a (rw u (rw g refl))))) h v)
            | inl (app, g) ↦
                let reached : validate gate now api_key apps keys ≡ admit gate k app =
                  rw p (rw f (rw a (rw u (rw g refl)))) in
                let (s, (n, c, l, e)) = admit_cases k app r (sym reached ∙ h) v in
                record {
                  key = k;
                  app = app;
                  calls = n;
                  present = p;
                  found = f;
                  active = a;
                  unexpired = u;
                  app_found = g;
                  app_active = s;
                  counted = c;
                  below = l;
                  answer = e;
                }
          ]
        ]
      ]
    ]
  ]

  admits :
      (r : KeyValidationResult)
      → IsAdmitted gate now api_key apps keys r
      → validate gate now api_key apps keys ≡ some r
  unfolding validate admit
  admits r a =
      rw
        (
          a.present, a.found, a.active, a.unexpired, a.app_found, a.app_active, a.counted, a.below,
          a.answer, validate, admit,
        )
        refl

  -- The validator answers `valid` exactly for an admitted key, and then describes it.
  pub validate_iff :
      (r : KeyValidationResult)
      → ((validate gate now api_key apps keys ≡ some r) × (r.valid ≡ true))
        ↔ IsAdmitted gate now api_key apps keys r
  validate_iff r = (
    λ h. admitted r h.0 h.1,
    λ a. (admits r a, ap (λ (x : KeyValidationResult). x.valid) a.answer),
  )
