-- ===== src/Info/Expiry.antt =====
-- The expiry run `ExpireStale` of services/garudainfo/store/consent.go.
use gpass.Prelude.{
  length, select, values, update_all, ℕ, suc, ◌+◌, ◌≤◌, ◌≡◌, refl, ◌∙◌, inl, inr, false, [], ◌∷◌,
  arith, if◌then◌else◌, Bool-cases,
}
use gpass.Info.Validate.{Consent}
use gpass.Info.Consents.{Store, is_stale, expire, expire_loop, expire_stale}

-- how many consents of the store an expiry run at `now` concerns
abbrev pub stale_count : ℕ → Store → ℕ
stale_count now s = length (select (is_stale now) (values s))

expire_settles : (now later : ℕ) (c : Consent) → later ≤ now → is_stale later (expire now c) ≡ false
expire_settles now later c h = elim (Bool-cases (is_stale now c)) [
  | inl e ↦ rw e refl
  | inr e ↦ rw e (ground (arith, e))
]

expire_loop_lem :
    (now count : ℕ) (s : Store)
    → expire_loop now count s ≡ (count + stale_count now s, update_all (expire now) s)
unfolding expire_loop select values update_all
expire_loop_lem now count [] = ground arith
expire_loop_lem now count ((k, c) ∷ m) =
    rw (expire_loop_lem now (if is_stale now c then suc count else count) m)
      (elim (Bool-cases (is_stale now c)) [
        | inl e ↦ rw e (ground arith)
        | inr e ↦ rw e (ground arith)
      ])

-- An expiry run updates every consent in place, to EXPIRED if it is active and its expiry lies
-- before `now` and not at all otherwise, and returns how many it expired.
pub expire_stale_lem :
    (now : ℕ) (s : Store) → expire_stale now s ≡ (stale_count now s, update_all (expire now) s)
unfolding expire_stale
expire_stale_lem now s = expire_loop_lem now 0 s ∙ ground arith

none_stale :
    (now later : ℕ) (s : Store) → later ≤ now → stale_count later (update_all (expire now) s) ≡ 0
unfolding select values update_all
none_stale now later [] h = refl
none_stale now later ((k, c) ∷ m) h = rw (expire_settles now later c h) (none_stale now later m h)

-- After a run at `now` no run at that time or before finds anything to expire.
pub stale_count-expire_stale :
    (now later : ℕ) (s : Store) → later ≤ now → (expire_stale later (expire_stale now s).1).0 ≡ 0
stale_count-expire_stale now later s h =
    rw (expire_stale_lem now s, expire_stale_lem later (update_all (expire now) s))
      (none_stale now later s h)
