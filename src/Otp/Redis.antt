-- ===== src/Otp/Redis.antt =====
-- What services/identity/otp/service.go uses of Redis and bcrypt, which are not code of the
-- repository: the operations, and their documented behaviour.
use gpass.Prelude.{
  any_of, ℕ, suc, ◌+◌, ◌≤◌, String, ◌≡◌, Bool, true, false, Option, none, List, [], ◌∷◌, ◌==◌, ltb,
  if◌then◌else◌, Result, ok, err,
}

-- `redis.Nil` for a missing key, or another error with its text
pub data RedisError : Type 0 where
  redis_nil : RedisError
  redis_failed : String → RedisError

pub data Command : Type 0 where
  set : String → String → ℕ → Command
  incr : String → Command
  expire : String → ℕ → Command
  del : List String → Command

abbrev pub touches : Command → String → Bool
touches (set k v ttl) j = k == j
touches (incr k) j = k == j
touches (expire k ttl) j = k == j
touches (del ks) j = any_of (λ (k : String). k == j) ks

-- Each operation takes the time of the call. `exec` runs the commands of a pipeline, or one command,
-- and returns the error, if there is one. Counters are never negative.
pub record Redis (Db : Type 0) : Type 0 where
  pub get_text : ℕ → String → Db → Result RedisError String
  pub get_int : ℕ → String → Db → Result RedisError ℕ
  pub exec : ℕ → List Command → Db → Db × Option String

-- A server that answers, and on which no other client writes the keys.
pub record IsServer {Db : Type 0} (redis : Redis Db) : Type 0 where
  pub answers : (now : ℕ) (cs : List Command) (db : Db) → (redis.exec now cs db).1 ≡ none
  pub in_order :
      (now : ℕ) (c d : Command) (cs : List Command) (db : Db)
      → (redis.exec now (c ∷ d ∷ cs) db).0
        ≡ (redis.exec now (d ∷ cs) (redis.exec now (c ∷ []) db).0).0
  pub set_text :
      (now t : ℕ) (k v : String) (ttl : ℕ) (db : Db)
      → now ≤ t
      → redis.get_text t k (redis.exec now (set k v ttl ∷ []) db).0
        ≡ (if ltb t (now + ttl) then ok v else err redis_nil)
  pub del_text :
      (now t : ℕ) (k : String) (ks : List String) (db : Db)
      → now ≤ t
      → touches (del ks) k ≡ true
      → redis.get_text t k (redis.exec now (del ks ∷ []) db).0 ≡ err redis_nil
  pub del_int :
      (now t : ℕ) (k : String) (ks : List String) (db : Db)
      → now ≤ t
      → touches (del ks) k ≡ true
      → redis.get_int t k (redis.exec now (del ks ∷ []) db).0 ≡ err redis_nil
  pub incr_new :
      (now : ℕ) (k : String) (db : Db)
      → redis.get_int now k db ≡ err redis_nil
      → redis.get_int now k (redis.exec now (incr k ∷ []) db).0 ≡ ok 1
  pub incr_held :
      (now : ℕ) (k : String) (n : ℕ) (db : Db)
      → redis.get_int now k db ≡ ok n
      → redis.get_int now k (redis.exec now (incr k ∷ []) db).0 ≡ ok (suc n)
  pub expire_int :
      (now t : ℕ) (k : String) (ttl n : ℕ) (db : Db)
      → now ≤ t
      → redis.get_int now k db ≡ ok n
      → redis.get_int t k (redis.exec now (expire k ttl ∷ []) db).0
        ≡ (if ltb t (now + ttl) then ok n else err redis_nil)
  pub other_text :
      (now t : ℕ) (c : Command) (k : String) (db : Db)
      → touches c k ≡ false
      → redis.get_text t k (redis.exec now (c ∷ []) db).0 ≡ redis.get_text t k db
  pub other_int :
      (now t : ℕ) (c : Command) (k : String) (db : Db)
      → touches c k ≡ false
      → redis.get_int t k (redis.exec now (c ∷ []) db).0 ≡ redis.get_int t k db

-- `hash_password` draws its salt from `salt`.
pub record Bcrypt : Type 0 where
  pub hash_password : ℕ → String → Result String String
  pub matches : String → String → Bool
