-- ===== src/Portal/Ownership.antt =====
-- Who may revoke or rotate a key through services/garudaportal/handler/key.go and
-- handler/rotation.go.
use gpass.Prelude.{
  concat, lookup, insert, ℕ, String, ◌≡◌, refl, ◌⊎◌, inl, inr, true, false, none, some, ◌==◌,
  Bool-cases, Option-cases, ok, err, Result-cases, Reply, reply, is_fault,
}
use gpass.Portal.Generate.{Entropy, generate_key}
use gpass.Portal.Keys.{
  ApiKey, KeyStore, key_not_found, key_revoked, revoke_key, App, AppStore, AppError, get_app,
  key_stamped, create_key, get_key,
}
use gpass.Portal.Manage.{revoke_app_key, fresh_key, rotate_for, rotate_key}

-- The caller is named and owns the app.
pub record IsOwner (user_id app_id : String) (apps : AppStore) : Type 0 where
  pub app : App
  pub named : (user_id == "") ≡ false
  pub found : get_app app_id apps ≡ ok app
  pub owned : (app.owner_user_id == user_id) ≡ true

abbrev pub IsRefused : {A : Type 0} → KeyStore → KeyStore × Reply A → Type 0
IsRefused keys out = (out.0 ≡ keys) × (is_fault out.1 ≡ true)

-- The key that a rotation stores.
abbrev pub rotated : ℕ → String → String → String → String → ApiKey → ApiKey
rotated now uuid app_id hash prefix old =
    key_stamped now uuid
      (fresh_key app_id hash prefix (concat old.name " (rotated)") old.environment none)

module _ (user_id app_id : String) (apps : AppStore) (keys : KeyStore) where
  revoke_held :
      (now : ℕ) (key_id : String)
      → (revoke_key now key_id keys ≡ err key_not_found) × (lookup key_id keys ≡ none)
        ⊎ ((k : ApiKey) × (lookup key_id keys ≡ some k)
            × (revoke_key now key_id keys ≡ ok (insert key_id (key_revoked now k) keys)))
  unfolding revoke_key
  revoke_held now key_id = elim (Option-cases (lookup key_id keys)) [
    | inl m ↦ inl (rw (m, revoke_key) refl, m)
    | inr (k, m) ↦ inr (k, m, rw (m, revoke_key) refl)
  ]

  IsOwner-cases :
      IsOwner user_id app_id apps
      ⊎ ((user_id == "") ≡ true)
      ⊎ ((user_id == "") ≡ false
          × (((e : AppError) × (get_app app_id apps ≡ err e))
              ⊎ ((app : App) × (get_app app_id apps ≡ ok app)
                  × ((app.owner_user_id == user_id) ≡ false))))
  IsOwner-cases = elim (Bool-cases (user_id == "")) [
    | inl e ↦ inr (inl e)
    | inr e ↦ elim (Result-cases (get_app app_id apps)) [
      | inr (x, g) ↦ inr (inr (e, inl (x, g)))
      | inl (app, g) ↦ elim (Bool-cases (app.owner_user_id == user_id)) [
        | inl o ↦ inl (record { app = app; named = e; found = g; owned = o })
        | inr o ↦ inr (inr (e, inr (app, g, o)))
      ]
    ]
  ]

  -- A call of the revoke handler is refused and changes nothing, or its caller owns the app that it
  -- names, the key exists, and that key alone is set to REVOKED.
  pub revoke_app_key_cases :
      (now : ℕ) (key_id : String)
      → IsRefused keys (revoke_app_key now user_id app_id key_id apps keys)
        ⊎ (IsOwner user_id app_id apps
            × ((k : ApiKey) × (lookup key_id keys ≡ some k)
                × (revoke_app_key now user_id app_id key_id apps keys
                    ≡ (insert key_id (key_revoked now k) keys, reply 200 key_id))))
  unfolding revoke_app_key
  revoke_app_key_cases now key_id = elim IsOwner-cases [
    | inr (inl e) ↦ inl (rw e refl, rw e refl)
    | inr (inr (e, inl (x, g))) ↦ inl (rw e (rw g refl), rw e (rw g refl))
    | inr (inr (e, inr (app, g, o))) ↦ inl (rw e (rw g (rw o refl)), rw e (rw g (rw o refl)))
    | inl w ↦ elim (revoke_held now key_id) [
      | inl (r, _) ↦ inl (
        rw w.named (rw w.found (rw w.owned (rw r refl))),
        rw w.named (rw w.found (rw w.owned (rw r refl))),
      )
      | inr (k, m, r) ↦ inr (w, (k, m, rw w.named (rw w.found (rw w.owned (rw r refl)))))
    ]
  ]

  -- The app of the key is never looked at: the owner of an app revokes every key of the store
  -- through it, the keys of other apps and owners included.
  pub revoke_app_key_any :
      (now : ℕ) (key_id : String) (k : ApiKey)
      → IsOwner user_id app_id apps
      → lookup key_id keys ≡ some k
      → revoke_app_key now user_id app_id key_id apps keys
        ≡ (insert key_id (key_revoked now k) keys, reply 200 key_id)
  unfolding revoke_app_key revoke_key
  revoke_app_key_any now key_id k w m =
      rw w.named (rw w.found (rw w.owned (rw (m, revoke_key) refl)))

  -- The same holds of the rotation: with the key of whatever app, unless it is revoked, the owner
  -- of an app gets a new key of that app, in the environment of the old one, and is shown the old
  -- key, which stays as it is.
  pub rotate_key_any :
      (entropy : Entropy) (now : ℕ) (uuid key_id : String) (old : ApiKey)
      (plaintext hash prefix : String)
      → IsOwner user_id app_id apps
      → lookup key_id keys ≡ some old
      → (old.status == "REVOKED") ≡ false
      → generate_key entropy old.environment ≡ some (plaintext, hash, prefix)
      → rotate_key entropy now uuid user_id app_id key_id apps keys ≡ (
        insert uuid (rotated now uuid app_id hash prefix old) keys,
        reply 201 (rotated now uuid app_id hash prefix old, plaintext, old),
      )
  unfolding rotate_key rotate_for get_key create_key
  rotate_key_any entropy now uuid key_id old plaintext hash prefix w m live g = rw w.named (
      rw w.found (
        rw w.owned (
          rw (m, rotate_for, get_key)
            (rw (live, rotate_for) (rw (g, rotate_for, create_key) refl)))))
