-- ===== src/Otp/Session.antt =====
-- `Verify` of services/identity/otp/service.go without Redis: a session holds the hash of a code,
-- until when it can be used, and how many wrong codes were tried.
use gpass.Prelude.{
  concat-apart, ℕ, suc, ◌+◌, ◌≤◌, ◌<◌, String, ◌≡◌, refl, Bool, false, not, ◌==◌, ltb, leb,
  if◌then◌else◌, Result, ok, err,
}
use gpass.Otp.Redis.{RedisError, redis_nil, Redis}
use gpass.Otp.Codes.{
  otp_ttl, max_attempts, OtpError, otp_expired, otp_invalid, attempts_exceeded, send_key, hash_key,
  attempts_key,
}

pub record Session : Type 0 where
  pub secret : String
  pub until : ℕ
  pub wrong : ℕ

abbrev pub closed : Session → Session
closed s = record s { until = 0 }

unfoldable pub guess :
    (String → String → Bool) → ℕ → String → Session → Session × Result OtpError (Unit {0})
guess matches now code s =
    if not (ltb now s.until)
    then (s, err otp_expired)
    else if matches s.secret code
    then (closed s, ok tt)
    else if leb max_attempts (s.wrong + 1)
    then (closed s, err attempts_exceeded)
    else (record s { wrong = suc s.wrong }, err otp_invalid)

-- the counter that a read of a key gives
pub data Counted : Result RedisError ℕ → ℕ → Type 0 where
  missing : Counted (err redis_nil) 0
  counted : (n : ℕ) → Counted (ok n) n

-- From `now` on, the hash can be read as long as the session is open, and the counter of wrong codes
-- is below the bound, and that of the session as long as it is open.
pub record Shows {Db : Type 0} (redis : Redis Db) (id channel : String) (now : ℕ) (db : Db)
    (s : Session) : Type 0 where
  pub hash_kept :
      (t : ℕ)
      → now ≤ t
      → redis.get_text t (hash_key id channel) db
        ≡ (if ltb t s.until then ok s.secret else err redis_nil)
  pub tries_kept :
      (t : ℕ)
      → now ≤ t
      → (n : ℕ) × Counted (redis.get_int t (attempts_key id channel) db) n
        × (n ≤ 2)
        × (t < s.until → n ≡ s.wrong)
  pub short : s.until ≤ now + otp_ttl

pub hash_not_tries :
    (id channel : String) → (hash_key id channel == attempts_key id channel) ≡ false
hash_not_tries id channel = concat-apart "otp:hash:" "otp:attempts:" _ _ refl

pub tries_not_hash :
    (id channel : String) → (attempts_key id channel == hash_key id channel) ≡ false
tries_not_hash id channel = concat-apart "otp:attempts:" "otp:hash:" _ _ refl

pub sends_not_hash : (id channel : String) → (send_key id channel == hash_key id channel) ≡ false
sends_not_hash id channel = concat-apart "otp:sends:" "otp:hash:" _ _ refl

pub sends_not_tries :
    (id channel : String) → (send_key id channel == attempts_key id channel) ≡ false
sends_not_tries id channel = concat-apart "otp:sends:" "otp:attempts:" _ _ refl
