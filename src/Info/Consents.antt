-- ===== src/Info/Consents.antt =====
-- services/garudainfo/store/consent.go: the in-memory consent store. The store copies every
-- consent on its way in and out, so its map holds values. The time of a call and the fresh UUID
-- are arguments.
use gpass.Prelude.{
  select, Dict, lookup, insert, values, mul64, add_time, ℕ, suc, String, Bool, ◌&&◌, none, some,
  List, [], ◌∷◌, ◌==◌, ltb, if◌then◌else◌, Result, ok, err,
}
use gpass.Info.Validate.{Consent, Invalid, validate_consent}

abbrev pub Store : Type 0
Store = Dict Consent

pub data StoreError : Type 0 where
  consent_not_found consent_revoked : StoreError
  invalid : Invalid → StoreError

abbrev pub second : ℕ
second = 1_000_000_000

-- What `Create` writes into the consent.
abbrev pub stamped : ℕ → String → Consent → Consent
stamped now uuid c = record c {
  id = uuid;
  status = "ACTIVE";
  granted_at = now;
  expires_at = add_time now (mul64 c.duration_seconds second);
}

-- The consent that is stored, and written back to the caller, and the new store.
unfoldable pub create : ℕ → String → Consent → Store → Result StoreError (Consent × Store)
create now uuid c s = elim (validate_consent c) [
  | err e ↦ err (invalid e)
  | ok _ ↦ ok (stamped now uuid c, insert uuid (stamped now uuid c) s)
]

unfoldable pub get_by_id : String → Store → Result StoreError Consent
get_by_id id s = elim (lookup id s) [ none ↦ err consent_not_found | some c ↦ ok c ]

unfoldable pub list_by_user : String → Store → List Consent
list_by_user user_id s = select (λ c. c.user_id == user_id) (values s)

unfoldable pub list_active_by_user_and_client : String → String → Store → List Consent
list_active_by_user_and_client user_id client_id s =
    select (λ c. c.user_id == user_id && (c.client_id == client_id && c.status == "ACTIVE"))
      (values s)

abbrev pub revoked : ℕ → Consent → Consent
revoked now c = record c { status = "REVOKED"; revoked_at = some now }

unfoldable pub revoke : ℕ → String → Store → Result StoreError Store
revoke now id s = elim (lookup id s) [
  | none ↦ err consent_not_found
  | some c ↦ if c.status == "REVOKED" then err consent_revoked else ok (insert id (revoked now c) s)
]

abbrev pub is_stale : ℕ → Consent → Bool
is_stale now c = c.status == "ACTIVE" && ltb c.expires_at now

abbrev pub expire : ℕ → Consent → Consent
expire now c = if is_stale now c then record c { status = "EXPIRED" } else c

-- the loop of `ExpireStale`, with its counter
unfoldable pub expire_loop : ℕ → ℕ → Store → ℕ × Store
expire_loop now count [] = (count, [])
expire_loop now count ((k, c) ∷ m) =
    let (total, rest) = expire_loop now (if is_stale now c then suc count else count) m in
    (total, (k, expire now c) ∷ rest)

unfoldable pub expire_stale : ℕ → Store → ℕ × Store
unfolding expire_loop
expire_stale now s = expire_loop now 0 s
