-- ===== src/Otp/Refine.antt =====
-- `Verify` of services/identity/otp/service.go does on a Redis server what it does on a session.
use gpass.Prelude.{
  any_of, ℕ, suc, ◌+◌, ◌<◌, String, ◌≡◌, refl, ap, ◌∙◌, inl, inr, true, false, not, [], ◌∷◌, arith,
  eq_refl, ltb, leb, if◌then◌else◌, Bool-cases, Result, ok, err,
}
use gpass.Otp.Redis.{RedisError, Command, incr, expire, del, touches, Redis, IsServer, Bcrypt}
use gpass.Otp.Codes.{
  otp_ttl, max_attempts, otp_expired, hash_key, attempts_key, read_count, wrong_code, verify,
}
use gpass.Otp.Session.{
  Session, closed, guess, Counted, missing, counted, hash_not_tries, tries_not_hash, Shows,
}

read_count-counted :
    (context : String) (r : Result RedisError ℕ) (n : ℕ) → Counted r n → read_count context r ≡ ok n
read_count-counted context _ _ missing = refl
read_count-counted context _ _ (counted n) = refl

module _ {Db : Type 0} (redis : Redis Db) (server : IsServer redis) (id channel : String) where
  -- the server after one command
  abbrev after : ℕ → Command → Db → Db
  after now c db = (redis.exec now (c ∷ []) db).0

  get_int-incr :
      (now : ℕ) (k : String) (r : Result RedisError ℕ) (n : ℕ) (db : Db)
      → redis.get_int now k db ≡ r
      → Counted r n
      → redis.get_int now k (after now (incr k) db) ≡ ok (suc n)
  get_int-incr now k _ _ db e missing = server.incr_new now k db e
  get_int-incr now k _ _ db e (counted n) = server.incr_held now k n db e

  -- Deleting both keys closes the session.
  closing :
      (now : ℕ) (db : Db) (s : Session)
      → Shows redis id channel now
          (after now (del (hash_key id channel ∷ attempts_key id channel ∷ [])) db)
          (closed s)
  unfolding any_of
  closing now db s =
      let both = hash_key id channel ∷ attempts_key id channel ∷ [] in
      let one : touches (del both) (hash_key id channel) ≡ true =
        rw (eq_refl (hash_key id channel)) refl in
      let other : touches (del both) (attempts_key id channel) ≡ true =
        rw (hash_not_tries id channel, eq_refl (attempts_key id channel)) refl in
      record {
        hash_kept = λ t p. server.del_text now t (hash_key id channel) both db p one ∙ ground arith;
        tries_kept = λ t p. (
          0,
          rw (server.del_int now t (attempts_key id channel) both db p other) missing,
          omega arith,
          λ q. absurd (omega (arith, q)),
        );
        short = omega arith;
      }

  -- A wrong code is counted, for as long as the session can be open.
  counting :
      (now : ℕ) (db : Db) (s : Session)
      → Shows redis id channel now db s
      → now < s.until
      → s.wrong + 1 < max_attempts
      → Shows redis id channel now
          (redis.exec now
            (incr (attempts_key id channel) ∷ expire (attempts_key id channel) otp_ttl ∷ [])
            db).0
          (record s { wrong = suc s.wrong })
  counting now db s view live few =
      let tries = attempts_key id channel in
      let db' = after now (incr tries) db in
      let (n, c, _, same) = view.tries_kept now (omega arith) in
      let read : redis.get_int now tries db' ≡ ok (suc n) = get_int-incr now tries _ n db refl c in
      rw (server.in_order now (incr tries) (expire tries otp_ttl) [] db) (record {
        hash_kept = λ t p.
            server.other_text now t (expire tries otp_ttl) (hash_key id channel) db'
              (tries_not_hash id channel)
            ∙ server.other_text now t (incr tries) (hash_key id channel) db
                (tries_not_hash id channel)
            ∙ view.hash_kept t p;
        tries_kept = λ t p. elim (Bool-cases (ltb t (now + otp_ttl))) [
          | inl l ↦ (
            suc n,
            rw (server.expire_int now t tries otp_ttl (suc n) db' p read) (rw l (counted (suc n))),
            omega (arith, same live, few),
            λ q. ap suc (same live),
          )
          | inr l ↦ (
            0,
            rw (server.expire_int now t tries otp_ttl (suc n) db' p read) (rw l missing),
            omega arith,
            λ q. absurd (ground (arith, q, l, view.short)),
          )
        ];
        short = view.short;
      })

  -- `Verify` with its reads done
  verify-reads :
      (bcrypt : Bcrypt) (now : ℕ) (code : String) (db : Db) (s : Session)
      (view : Shows redis id channel now db s)
      → let otp = hash_key id channel in
        let tries = attempts_key id channel in
        verify redis bcrypt now id channel code db ≡ (
          if not (ltb now s.until)
          then (db, err otp_expired)
          else if not (bcrypt.matches s.secret code)
          then wrong_code redis bcrypt now otp tries (view.tries_kept now (omega arith)).0 db
          else (after now (del (otp ∷ tries ∷ [])) db, ok tt))
  unfolding verify
  verify-reads bcrypt now code db s view =
      let (n, c, small, same) = view.tries_kept now (omega arith) in
      let few : leb max_attempts n ≡ false = ground arith in
      let hash = view.hash_kept now (omega arith) in
      rw (read_count-counted "check attempts" _ n c, verify)
        (rw few
          (rw hash (elim (Bool-cases (ltb now s.until)) [ inl o ↦ rw o refl | inr o ↦ rw o refl ])))

  -- On a server that answers, `Verify` returns what a guess at the session returns, and leaves the
  -- keys of the session after that guess.
  pub verify_refines :
      (bcrypt : Bcrypt) (now : ℕ) (code : String) (db : Db) (s : Session)
      → Shows redis id channel now db s
      → Shows redis id channel now
          (verify redis bcrypt now id channel code db).0
          (guess bcrypt.matches now code s).0
        × ((verify redis bcrypt now id channel code db).1 ≡ (guess bcrypt.matches now code s).1)
  unfolding wrong_code guess
  verify_refines bcrypt now code db s view =
      let reads = verify-reads bcrypt now code db s view in
      let (n, c, small, same) = view.tries_kept now (omega arith) in
      elim (Bool-cases (ltb now s.until)) [
        | inr o ↦ rw reads (rw o (view, refl))
        | inl o ↦ elim (Bool-cases (bcrypt.matches s.secret code)) [
          | inl m ↦ rw reads (rw o (rw m (closing now db s, refl)))
          | inr m ↦
              let e : n ≡ s.wrong = same (ground (arith, o)) in
              let tries = attempts_key id channel in
              let db' = (redis.exec now (incr tries ∷ expire tries otp_ttl ∷ []) db).0 in
              elim (Bool-cases (leb max_attempts (n + 1))) [
                | inl z ↦
                    let z' : leb max_attempts (s.wrong + 1) ≡ true = rw (← e) z in
                    rw reads (rw o (rw m (rw (z, wrong_code) (rw z' (closing now db' s, refl)))))
                | inr z ↦
                    let z' : leb max_attempts (s.wrong + 1) ≡ false = rw (← e) z in
                    let left = counting now db s view (ground (arith, o)) (ground (arith, z')) in
                    rw reads (rw o (rw m (rw (z, wrong_code) (rw z' (left, refl)))))
              ]
        ]
      ]
