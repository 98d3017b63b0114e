-- ===== src/Otp/Codes.antt =====
-- services/identity/otp/service.go: one-time passwords.
use gpass.Prelude.{
  concat, ℕ, zero, suc, ◌+◌, ◌*◌, String, not, Option, none, some, List, [], ◌∷◌, leb,
  if◌then◌else◌, Result, ok, err,
}
use gpass.Otp.Redis.{RedisError, redis_nil, redis_failed, set, incr, expire, del, Redis, Bcrypt}

abbrev pub otp_second : ℕ
otp_second = 1_000_000_000

abbrev pub otp_ttl : ℕ
otp_ttl = 300 * otp_second

abbrev pub max_sends_day : ℕ
max_sends_day = 3

abbrev pub max_attempts : ℕ
max_attempts = 3

abbrev pub send_count_ttl : ℕ
send_count_ttl = 86400 * otp_second

-- `failed` has the context that the code wraps around an error.
pub data OtpError : Type 0 where
  otp_expired otp_invalid attempts_exceeded sends_exceeded : OtpError
  failed : String → OtpError

abbrev pub otp_key : String → String → String → String
otp_key kind registration_id channel = concat kind (concat registration_id (concat ":" channel))

abbrev pub send_key : String → String → String
send_key = otp_key "otp:sends:"

abbrev pub hash_key : String → String → String
hash_key = otp_key "otp:hash:"

abbrev pub attempts_key : String → String → String
attempts_key = otp_key "otp:attempts:"

-- a counter, which is 0 where the key is missing
abbrev pub read_count : String → Result RedisError ℕ → Result OtpError ℕ
read_count context (ok n) = ok n
read_count context (err redis_nil) = ok 0
read_count context (err (redis_failed e)) = err (failed context)

-- `fmt.Sprintf("%d", n)` for a digit
abbrev pub digit_at : List String → ℕ → String
digit_at [] n = ""
digit_at (d ∷ ds) zero = d
digit_at (d ∷ ds) (suc n) = digit_at ds n

abbrev pub digit : ℕ → String
digit = digit_at ("0" ∷ "1" ∷ "2" ∷ "3" ∷ "4" ∷ "5" ∷ "6" ∷ "7" ∷ "8" ∷ "9" ∷ [])

-- The loop of `generateCode`, with the turns that are left, the random source, whose `none` is a
-- failure, and the code so far.
unfoldable pub generate_code : ℕ → (ℕ → Option ℕ) → String → Option String
generate_code zero draws code = some code
generate_code (suc turns) draws code = elim (draws turns) [
  | none ↦ none
  | some n ↦ generate_code turns draws (concat code (digit n))
]

module _ {Db : Type 0} (redis : Redis Db) (bcrypt : Bcrypt) where
  -- the end of `Generate`, once a code is drawn
  unfoldable pub store_code : ℕ → ℕ → String → String → String → Db → Db × Result OtpError String
  store_code now salt registration_id channel code db = elim (bcrypt.hash_password salt code) [
    | err e ↦ (db, err (failed "hash code"))
    | ok hash ↦
        let (db', e) =
          redis.exec now
            (set (hash_key registration_id channel) hash otp_ttl
              ∷ del (attempts_key registration_id channel ∷ [])
              ∷ incr (send_key registration_id channel)
              ∷ expire (send_key registration_id channel) send_count_ttl
              ∷ [])
            db in
        elim e [ some _ ↦ (db', err (failed "store OTP")) | none ↦ (db', ok code) ]
  ]

  unfoldable pub generate :
      ℕ → ℕ → (ℕ → Option ℕ) → String → String → Db → Db × Result OtpError String
  unfolding store_code
  generate now salt draws registration_id channel db =
      elim (read_count "check send count"
        (redis.get_int now (send_key registration_id channel) db)) [
          | err e ↦ (db, err e)
          | ok count ↦
              if leb max_sends_day count
              then (db, err sends_exceeded)
              else elim (generate_code 6 draws "") [
                | none ↦ (db, err (failed "generate code"))
                | some code ↦ store_code now salt registration_id channel code db
              ]
        ]

  -- `Verify` with a code that does not fit
  unfoldable pub wrong_code : ℕ → String → String → ℕ → Db → Db × Result OtpError (Unit {0})
  wrong_code now otp tries attempts db =
      let (db', _) = redis.exec now (incr tries ∷ expire tries otp_ttl ∷ []) db in
      if leb max_attempts (attempts + 1)
      then ((redis.exec now (del (otp ∷ tries ∷ []) ∷ []) db').0, err attempts_exceeded)
      else (db', err otp_invalid)

  unfoldable pub verify : ℕ → String → String → String → Db → Db × Result OtpError (Unit {0})
  unfolding wrong_code
  verify now registration_id channel code db =
      let otp = hash_key registration_id channel in
      let tries = attempts_key registration_id channel in
      elim (read_count "check attempts" (redis.get_int now tries db)) [
        | err e ↦ (db, err e)
        | ok attempts ↦
            if leb max_attempts attempts
            then ((redis.exec now (del (otp ∷ tries ∷ []) ∷ []) db).0, err attempts_exceeded)
            else elim (redis.get_text now otp db) [
              | err redis_nil ↦ (db, err otp_expired)
              | err (redis_failed e) ↦ (db, err (failed "get OTP hash"))
              | ok hash ↦
                  if not (bcrypt.matches hash code)
                  then wrong_code now otp tries attempts db
                  else ((redis.exec now (del (otp ∷ tries ∷ []) ∷ []) db).0, ok tt)
            ]
      ]
