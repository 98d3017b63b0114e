-- ===== src/Otp/Issue.antt =====
-- What `Generate` of services/identity/otp/service.go leaves on a Redis server.
use gpass.Prelude.{
  any_of, ℕ, ◌+◌, String, ◌≡◌, refl, sym, ◌∙◌, inl, inr, Option, [], ◌∷◌, arith, eq_refl, leb,
  Bool-cases, Option-cases, ok, Result-cases,
}
use gpass.Otp.Redis.{Command, set, incr, expire, del, Redis, IsServer, Bcrypt}
use gpass.Otp.Codes.{
  otp_ttl, max_sends_day, send_count_ttl, send_key, hash_key, attempts_key, read_count,
  generate_code, store_code, generate,
}
use gpass.Otp.Session.{Session, missing, tries_not_hash, sends_not_hash, sends_not_tries, Shows}

-- a new code: five minutes, and no wrong code yet
abbrev pub fresh_session : ℕ → String → Session
fresh_session now hash = record { secret = hash; until = now + otp_ttl; wrong = 0 }

module _ {Db : Type 0} (redis : Redis Db) (server : IsServer redis) (bcrypt : Bcrypt)
    (id channel : String) where
  abbrev after : ℕ → Command → Db → Db
  after now c db = (redis.exec now (c ∷ []) db).0

  stored :
      (now : ℕ) (hash : String) (db : Db)
      → Shows redis id channel now
          (after now (expire (send_key id channel) send_count_ttl) (
            after now (incr (send_key id channel)) (
              after now
                (del (attempts_key id channel ∷ []))
                (after now (set (hash_key id channel) hash otp_ttl) db))))
          (fresh_session now hash)
  unfolding any_of
  stored now hash db =
      let sends = send_key id channel in
      let tries = attempts_key id channel in
      let otp = hash_key id channel in
      let db₁ = after now (set otp hash otp_ttl) db in
      let db₂ = after now (del (tries ∷ [])) db₁ in
      let db₃ = after now (incr sends) db₂ in
      record {
        hash_kept = λ t p.
            server.other_text now t (expire sends send_count_ttl) otp db₃
              (sends_not_hash id channel)
            ∙ server.other_text now t (incr sends) otp db₂ (sends_not_hash id channel)
            ∙ server.other_text now t (del (tries ∷ [])) otp db₁
                (rw (tries_not_hash id channel) refl)
            ∙ server.set_text now t otp hash otp_ttl db p;
        tries_kept = λ t p. (
          0,
          rw
              (server.other_int now t (expire sends send_count_ttl) tries db₃
                  (sends_not_tries id channel)
                ∙ server.other_int now t (incr sends) tries db₂ (sends_not_tries id channel)
                ∙ server.del_int now t tries (tries ∷ []) db₁ p (rw (eq_refl tries) refl))
              missing,
          omega arith,
          λ q. refl,
        );
        short = omega arith;
      }

  store_code-starts :
      (now salt : ℕ) (code hash : String) (db : Db)
      → bcrypt.hash_password salt code ≡ ok hash
      → Shows redis id channel now
          (store_code redis bcrypt now salt id channel code db).0
          (fresh_session now hash)
        × ((store_code redis bcrypt now salt id channel code db).1 ≡ ok code)
  unfolding store_code
  store_code-starts now salt code hash db e =
      rw (e, store_code)
        (rw (server.answers now _ db) (
          rw (server.in_order now _ _ _ db) (
            rw (server.in_order now _ _ _ _)
              (rw (server.in_order now _ _ _ _) (stored now hash db, refl)))))

  store_code-eq-ok :
      (now salt : ℕ) (code sent : String) (db : Db)
      → (store_code redis bcrypt now salt id channel code db).1 ≡ ok sent
      → code ≡ sent
  unfolding store_code
  store_code-eq-ok now salt code sent db h = elim (Result-cases (bcrypt.hash_password salt code)) [
    | inl (hash, e) ↦
        let stores = (store_code-starts now salt code hash db e).1 in ground (arith, sym stores ∙ h)
    | inr (x, e) ↦ let failure = rw (e, store_code) at h in absurd (ground (arith, failure))
  ]

  pub generate-starts :
      (now salt : ℕ) (draws : ℕ → Option ℕ) (code hash : String) (db : Db)
      → (generate redis bcrypt now salt draws id channel db).1 ≡ ok code
      → bcrypt.hash_password salt code ≡ ok hash
      → Shows redis id channel now
          (generate redis bcrypt now salt draws id channel db).0
          (fresh_session now hash)
  unfolding generate
  generate-starts now salt draws code hash db g e =
      elim (Result-cases
        (read_count "check send count" (redis.get_int now (send_key id channel) db))) [
          | inr (x, r) ↦ let failure = rw (r, generate) at g in absurd (ground (arith, failure))
          | inl (count, r) ↦ elim (Bool-cases (leb max_sends_day count)) [
            | inl m ↦
                let failure = rw m at (rw (r, generate) at g) in absurd (ground (arith, failure))
            | inr m ↦ elim (Option-cases (generate_code 6 draws "")) [
              | inl d ↦
                  let failure = rw d at (rw m at (rw (r, generate) at g)) in
                  absurd (ground (arith, failure))
              | inr (drawn, d) ↦
                  let same =
                    store_code-eq-ok now salt drawn code db
                      (rw d at (rw m at (rw (r, generate) at g))) in
                  rw (r, generate)
                    (rw m (rw d (rw same (store_code-starts now salt code hash db e).0)))
            ]
          ]
        ]

  store_code-hashed :
      (now salt : ℕ) (code sent : String) (db : Db)
      → (store_code redis bcrypt now salt id channel code db).1 ≡ ok sent
      → (hash : String) × (bcrypt.hash_password salt code ≡ ok hash)
  unfolding store_code
  store_code-hashed now salt code sent db h = elim (Result-cases (bcrypt.hash_password salt code)) [
    | inl found ↦ found
    | inr (x, e) ↦ let failure = rw (e, store_code) at h in absurd (ground (arith, failure))
  ]

  -- The code that `Generate` returns has been hashed.
  pub generate-hashed :
      (now salt : ℕ) (draws : ℕ → Option ℕ) (code : String) (db : Db)
      → (generate redis bcrypt now salt draws id channel db).1 ≡ ok code
      → (hash : String) × (bcrypt.hash_password salt code ≡ ok hash)
  unfolding generate
  generate-hashed now salt draws code db g =
      elim (Result-cases
        (read_count "check send count" (redis.get_int now (send_key id channel) db))) [
          | inr (x, r) ↦ let failure = rw (r, generate) at g in absurd (ground (arith, failure))
          | inl (count, r) ↦ elim (Bool-cases (leb max_sends_day count)) [
            | inl m ↦
                let failure = rw m at (rw (r, generate) at g) in absurd (ground (arith, failure))
            | inr m ↦ elim (Option-cases (generate_code 6 draws "")) [
              | inl d ↦
                  let failure = rw d at (rw m at (rw (r, generate) at g)) in
                  absurd (ground (arith, failure))
              | inr (drawn, d) ↦
                  let sent = rw d at (rw m at (rw (r, generate) at g)) in
                  rw (sym (store_code-eq-ok now salt drawn code db sent))
                    (store_code-hashed now salt drawn code db sent)
            ]
          ]
        ]
