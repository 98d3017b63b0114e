-- ===== src/Otp/Memory.antt =====
-- A Redis server in memory, for the runs of services/identity.
use gpass.Prelude.{
  any_of, ℕ, suc, ◌+◌, String, ◌≡◌, refl, Bool, true, false, Option, none, some, List, [], ◌∷◌,
  arith, ◌==◌, eq_refl, ltb, if◌then◌else◌, Result, ok, err,
}
use gpass.Otp.Redis.{
  RedisError, redis_nil, Command, set, incr, expire, del, touches, Redis, IsServer, Bcrypt,
}

-- a value as a text and as a number, with the end of its life
pub record Entry : Type 0 where
  pub text : String
  pub number : ℕ
  pub ends : Option ℕ

abbrev pub Memory : Type 0
Memory = String → Option Entry

unfoldable pub ends_after : ℕ → Option ℕ → Bool
ends_after now none = true
ends_after now (some t) = ltb now t

unfoldable pub live : ℕ → Option Entry → Option Entry
live now none = none
live now (some e) = if ends_after now e.ends then some e else none

unfoldable pub put : String → Option Entry → Memory → Memory
put k e m j = if k == j then e else m j

unfoldable pub counted_up : Option Entry → Entry
counted_up none = record { text = ""; number = 1; ends = none }
counted_up (some e) = record e { number = suc e.number }

unfoldable pub prolonged : ℕ → Option Entry → Option Entry
prolonged t none = none
prolonged t (some e) = some (record e { ends = some t })

unfoldable pub erase : List String → Memory → Memory
erase ks m j = if any_of (λ (k : String). k == j) ks then none else m j

unfoldable pub apply : ℕ → Command → Memory → Memory
apply now (set k v ttl) m =
    put k (some (record { text = v; number = 0; ends = some (now + ttl) })) m
apply now (incr k) m = put k (some (counted_up (live now (m k)))) m
apply now (expire k ttl) m = put k (prolonged (now + ttl) (live now (m k))) m
apply now (del ks) m = erase ks m

unfoldable pub apply_all : ℕ → List Command → Memory → Memory
apply_all now [] m = m
apply_all now (c ∷ cs) m = apply_all now cs (apply now c m)

unfoldable pub text_of : Option Entry → Result RedisError String
text_of none = err redis_nil
text_of (some e) = ok e.text

unfoldable pub number_of : Option Entry → Result RedisError ℕ
number_of none = err redis_nil
number_of (some e) = ok e.number

abbrev pub memory : Redis Memory
memory = record {
  get_text = λ now k m. text_of (live now (m k));
  get_int = λ now k m. number_of (live now (m k));
  exec = λ now cs m. (apply_all now cs m, none);
}

apply-other :
    (now : ℕ) (c : Command) (k : String) (m : Memory) → touches c k ≡ false → apply now c m k ≡ m k
unfolding apply put erase
apply-other now (set j v ttl) k m h = rw h refl
apply-other now (incr j) k m h = rw h refl
apply-other now (expire j ttl) k m h = rw h refl
apply-other now (del ks) k m h = rw h refl

count_new :
    (now : ℕ) (e : Option Entry)
    → number_of (live now e) ≡ err redis_nil
    → number_of (live now (some (counted_up (live now e)))) ≡ ok 1
unfolding number_of live counted_up ends_after
count_new now none h = refl
count_new now (some e) h = ground arith

count_held :
    (now n : ℕ) (e : Option Entry)
    → number_of (live now e) ≡ ok n
    → number_of (live now (some (counted_up (live now e)))) ≡ ok (suc n)
unfolding number_of live counted_up ends_after
count_held now n none h = ground (arith, h)
count_held now n (some e) h = ground arith

count_prolonged :
    (now t until n : ℕ) (e : Option Entry)
    → number_of (live now e) ≡ ok n
    → number_of (live t (prolonged until (live now e)))
      ≡ (if ltb t until then ok n else err redis_nil)
unfolding number_of live prolonged ends_after
count_prolonged now t until n none h = ground (arith, h)
count_prolonged now t until n (some e) h = ground arith

pub memory-IsServer : IsServer memory
unfolding apply_all apply put erase live ends_after text_of number_of counted_up prolonged
memory-IsServer = record {
  answers = λ now cs m. refl;
  in_order = λ now c d cs m. refl;
  set_text = λ now t k v ttl m p. rw (eq_refl k) (ground arith);
  del_text = λ now t k ks m p h. rw h refl;
  del_int = λ now t k ks m p h. rw h refl;
  incr_new = λ now k m h. rw (eq_refl k) (count_new now (m k) h);
  incr_held = λ now k n m h. rw (eq_refl k) (count_held now n (m k) h);
  expire_int = λ now t k ttl n m p h. rw (eq_refl k) (count_prolonged now t (now + ttl) n (m k) h);
  other_text = λ now t c k m h. rw (apply-other now c k m h) refl;
  other_int = λ now t c k m h. rw (apply-other now c k m h) refl;
}

abbrev pub plain : Bcrypt
plain = record { hash_password = λ salt code. ok code; matches = λ hash code. hash == code }

abbrev pub no_keys : Memory
no_keys k = none
