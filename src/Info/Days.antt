-- ===== src/Info/Days.antt =====
-- The duration of a grant: `int64(req.DurationDays) * 86400` of
-- services/garudainfo/handler/consent.go, and the expiry that comes of it.
use gpass.Prelude.{
  insert, pos, mul64, mul64_exact, ℕ, ◌+◌, ◌*◌, ◌%◌, ◌^◌, ◌≤◌, ◌<◌, String, ◌≡◌, refl, ◌∙◌, inl,
  inr, some, arith, reply,
}
use gpass.Info.Validate.{max_duration}
use gpass.Info.Consents.{Store, second, stamped}
use gpass.Info.Lifecycle.{expiry_exact, create_cases}
use gpass.Info.Acceptable.{IsAcceptable}
use gpass.Info.Grants.{GrantRequest, requested, grant}

-- The product wraps: two durations that differ by a multiple of 2^57 days are the same to the store.
pub requested_wraps :
    (req : GrantRequest) (n m : ℕ)
    → (requested (record req { duration_days = pos (n + m * 2 ^ 57) })).duration_seconds
      ≡ (requested (record req { duration_days = pos n })).duration_seconds
unfolding requested mul64
requested_wraps req n m =
    let e : (n + m * 2 ^ 57) * 86400 % 2 ^ 64 ≡ n * 86400 % 2 ^ 64 = omega arith in rw e refl

requested_exact :
    (req : GrantRequest) (d : ℕ)
    → req.duration_days ≡ pos d
    → d * 86400 < 2 ^ 63
    → (requested req).duration_seconds ≡ pos (d * 86400)
unfolding requested
requested_exact req d e h = rw e (mul64_exact d 86400 h)

module _ (now : ℕ) (uuid : String) (req : GrantRequest) (s : Store) where
  -- A grant that answers 201 was complete and acceptable.
  granted :
      {t : Store} {id : String} {expiry : ℕ}
      → grant now uuid (some req) s ≡ (t, reply 201 (id, expiry))
      → IsAcceptable (requested req)
        × (id ≡ uuid)
        × (expiry ≡ (stamped now uuid (requested req)).expires_at)
        × (t ≡ insert uuid (stamped now uuid (requested req)) s)
  unfolding grant
  granted {t} {id} {expiry} h = elim (create_cases now uuid (requested req) s) [
    | inl (a, e) ↦ (a, ground (arith, e), ground (arith, e), ground (arith, e))
    | inr (x, e) ↦ absurd (ground (arith, e))
  ]

  -- If the product does not wrap, a grant that answers 201 lasts exactly the days asked for, and
  -- these are at least one and at most five years.
  pub grant-expiry :
      {t : Store} {id : String} {expiry : ℕ} (d : ℕ)
      → req.duration_days ≡ pos d
      → d * 86400 < 2 ^ 63
      → grant now uuid (some req) s ≡ (t, reply 201 (id, expiry))
      → (id ≡ uuid) × (expiry ≡ now + d * 86400 * second) × (1 ≤ d) × (d ≤ 5 * 365)
  grant-expiry {t} {id} {expiry} d days fits h =
      let (a, named, e, _) = granted h in
      let exact = requested_exact req d days fits in
      let secs : a.seconds ≡ d * 86400 = ground (arith, a.lasts, exact) in
      let long : 1 ≤ d * 86400 = ground (arith, secs, a.long_enough) in
      let short : d * 86400 ≤ max_duration = ground (arith, secs, a.short_enough) in
      (
        named,
        e ∙ rw exact (expiry_exact now (d * 86400) short),
        omega (arith, long),
        omega (arith, short),
      )
