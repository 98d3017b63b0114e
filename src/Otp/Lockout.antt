-- ===== src/Otp/Lockout.antt =====
-- How many wrong codes the service takes (services/identity/otp/service.go): from `Generate` on, calls of
-- `Verify` for the same registration and channel, one after the other.
use gpass.Prelude.{
  length, All, ℕ, suc, ◌+◌, ◌≤◌, ◌<◌, String, ◌≡◌, refl, ◌∙◌, Bool, false, Option, List, [], ◌∷◌,
  arith, ok, err,
}
use gpass.Otp.Redis.{Redis, IsServer, Bcrypt}
use gpass.Otp.Codes.{otp_expired, generate, verify}
use gpass.Otp.Session.{Session, guess, Shows}
use gpass.Otp.Refine.{verify_refines}
use gpass.Otp.Issue.{fresh_session, generate-starts}

-- calls of `Verify`, each with the time since the last call
unfoldable pub verify_all :
    {Db : Type 0} → Redis Db → Bcrypt → ℕ → String → String → List (ℕ × String) → Db → ℕ × Db
verify_all redis bcrypt now id channel [] db = (now, db)
verify_all redis bcrypt now id channel ((wait, code) ∷ calls) db =
    verify_all redis bcrypt (now + wait) id channel calls
      (verify redis bcrypt (now + wait) id channel code db).0

-- As long as the session can be used, so many wrong codes were tried on it, and fewer than three.
Spent : ℕ → ℕ → Session → Type 0
Spent k now s = now < s.until → (k ≤ s.wrong) × (s.wrong ≤ 2)

Spent-zero : (now : ℕ) (s : Session) → s.wrong ≡ 0 → Spent 0 now s
unfolding Spent
Spent-zero now s h p = (omega arith, omega (arith, h))

fewer-Spent :
    (j k now wait : ℕ) (s : Session) → j ≤ k → Spent (0 + k) now s → Spent j (now + wait) s
unfolding Spent
fewer-Spent j k now wait s l h p = let (m, n) = h (omega (arith, p)) in (omega (arith, l, m), n)

guess-spends :
    (matches : String → String → Bool) (k now wait : ℕ) (code : String) (s : Session)
    → matches s.secret code ≡ false
    → Spent k now s
    → Spent (suc k) (now + wait) (guess matches (now + wait) code s).0
unfolding guess Spent
guess-spends matches k now wait code s w h = ground arith

guess-secret :
    (matches : String → String → Bool) (now : ℕ) (code : String) (s : Session)
    → (guess matches now code s).0.secret ≡ s.secret
unfolding guess
guess-secret matches now code s = ground arith

guess-Spent :
    (matches : String → String → Bool) (now : ℕ) (code : String) (s : Session)
    → Spent 3 now s
    → (guess matches now code s).1 ≡ err otp_expired
unfolding guess Spent
guess-Spent matches now code s h = ground arith

module _ {Db : Type 0} (redis : Redis Db) (server : IsServer redis) (bcrypt : Bcrypt)
    (id channel : String) where
  later :
      (now wait : ℕ) (db : Db) (s : Session)
      → Shows redis id channel now db s
      → Shows redis id channel (now + wait) db s
  later now wait db s view = record {
    hash_kept = λ t p. view.hash_kept t (omega (arith, p));
    tries_kept = λ t p. view.tries_kept t (omega (arith, p));
    short = omega (arith, view.short);
  }

  -- After so many wrong codes the keys show a session on which as many were tried.
  spending :
      (calls : List (ℕ × String)) (k now : ℕ) (db : Db) (s : Session)
      → All (λ (c : ℕ × String). bcrypt.matches s.secret c.1 ≡ false) calls
      → Shows redis id channel now db s
      → Spent k now s
      → let r = verify_all redis bcrypt now id channel calls db in
        (s' : Session) × Shows redis id channel r.0 r.1 s' × Spent (k + length calls) r.0 s'
  unfolding verify_all Spent
  spending [] k now db s wrong view h = (s, view, λ p. ground (arith, h p))
  spending ((wait, code) ∷ calls) k now db s (w, wrong) view h =
      let (view', _) =
        verify_refines redis server id channel bcrypt (now + wait) code db s
          (later now wait db s view) in
      let s' = (guess bcrypt.matches (now + wait) code s).0 in
      let (last, shown, spent) =
        spending calls (suc k) (now + wait) _ s'
          (rw (guess-secret bcrypt.matches (now + wait) code s) wrong) view'
          (guess-spends bcrypt.matches k now wait code s w h) in
      (last, shown, λ p. let (m, n) = spent p in (omega (arith, m), n))

  -- On a server that answers: once a code was sent and three or more wrong codes were tried on it,
  -- every further code is refused as expired, the right one included.
  pub verify-locked :
      (now salt : ℕ) (draws : ℕ → Option ℕ) (sent hash guessed : String) (wait : ℕ)
      (calls : List (ℕ × String)) (db : Db)
      → (generate redis bcrypt now salt draws id channel db).1 ≡ ok sent
      → bcrypt.hash_password salt sent ≡ ok hash
      → All (λ (c : ℕ × String). bcrypt.matches hash c.1 ≡ false) calls
      → 3 ≤ length calls
      → let r =
          verify_all redis bcrypt now id channel calls
            (generate redis bcrypt now salt draws id channel db).0 in
        (verify redis bcrypt (r.0 + wait) id channel guessed r.1).1 ≡ err otp_expired
  verify-locked now salt draws sent hash guessed wait calls db g e wrong many =
      let s = fresh_session now hash in
      let start = generate-starts redis server bcrypt id channel now salt draws sent hash db g e in
      let (s', view, spent) = spending calls 0 now _ s wrong start (Spent-zero now s refl) in
      (verify_refines redis server id channel bcrypt _ guessed _ s' (later _ wait _ s' view)).1
      ∙ guess-Spent bcrypt.matches _ guessed s' (fewer-Spent 3 (length calls) _ wait s' many spent)
