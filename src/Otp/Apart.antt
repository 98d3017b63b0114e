-- ===== src/Otp/Apart.antt =====
-- `Generate` of services/identity/otp/service.go leaves the codes of another channel alone.
use gpass.Prelude.{
  codes, concat-apart, concat-ne, test_of_codes, any_of, ℕ, ◌≤◌, ◌<◌, String, ◌≡◌, refl, sym, ◌∙◌,
  ◌≢◌, inl, inr, false, Option, [], ◌∷◌, ◌==◌, leb, Bool-cases, Option-cases, Result-cases,
}
use mathlib.Core.Path.{subst}
use gpass.Otp.Session.{Session, Counted, Shows}
use gpass.Otp.Redis.{Command, touches, Redis, IsServer, Bcrypt}
use gpass.Otp.Codes.{
  max_sends_day, otp_key, send_key, hash_key, attempts_key, read_count, generate_code, store_code,
  generate,
}

module _ {Db : Type 0} (redis : Redis Db) (server : IsServer redis) (bcrypt : Bcrypt)
    (id other : String) where
  -- None of the keys that `Generate` writes.
  record IsApart (k : String) : Type 0 where
    no_hash : (hash_key id other == k) ≡ false
    no_tries : (attempts_key id other == k) ≡ false
    no_sends : (send_key id other == k) ≡ false

  -- What a read gives, for one of the two kinds of reads.
  module _ {A : Type 0} (read : ℕ → String → Db → A)
      (untouched : (now t : ℕ) (c : Command) (k : String) (db : Db)
        → touches c k ≡ false
        → read t k (redis.exec now (c ∷ []) db).0 ≡ read t k db) where
    store_code-keeps :
        (now t salt : ℕ) (code k : String) (db : Db)
        → IsApart k
        → read t k (store_code redis bcrypt now salt id other code db).0 ≡ read t k db
    unfolding store_code any_of
    store_code-keeps now t salt code k db apart =
        elim (Result-cases (bcrypt.hash_password salt code)) [
          | inr (x, e) ↦ rw (e, store_code) refl
          | inl (hash, e) ↦
              rw (e, store_code)
                (rw (server.answers now _ db) (
                  rw (server.in_order now _ _ _ db) (
                    rw (server.in_order now _ _ _ _) (
                      rw (server.in_order now _ _ _ _) (
                        untouched now t _ k _ apart.no_sends
                        ∙ untouched now t _ k _ apart.no_sends
                        ∙ untouched now t _ k _ (rw apart.no_tries refl)
                        ∙ untouched now t _ k db apart.no_hash)))))
        ]

    generate-keeps :
        (now t salt : ℕ) (draws : ℕ → Option ℕ) (k : String) (db : Db)
        → IsApart k
        → read t k (generate redis bcrypt now salt draws id other db).0 ≡ read t k db
    unfolding generate
    generate-keeps now t salt draws k db apart =
        elim (Result-cases
          (read_count "check send count" (redis.get_int now (send_key id other) db))) [
            | inr (x, r) ↦ rw (r, generate) refl
            | inl (count, r) ↦ elim (Bool-cases (leb max_sends_day count)) [
              | inl m ↦ rw (r, generate) (rw m refl)
              | inr m ↦ elim (Option-cases (generate_code 6 draws "")) [
                | inl d ↦ rw (r, generate) (rw m (rw d refl))
                | inr (code, d) ↦
                    rw (r, generate) (rw m (rw d (store_code-keeps now t salt code k db apart)))
              ]
            ]
          ]

  -- A code that can be used on one channel stays as it is when `Generate` runs for another channel.
  pub generate-Shows :
      (channel : String) (now since salt : ℕ) (draws : ℕ → Option ℕ) (db : Db) (s : Session)
      → codes other ≢ codes channel
      → Shows redis id channel since db s
      → Shows redis id channel since (generate redis bcrypt now salt draws id other db).0 s
  generate-Shows channel now since salt draws db s differ shows = record {
    hash_kept = λ t p.
        generate-keeps redis.get_text server.other_text now t salt draws (hash_key id channel) db
          on_hash
        ∙ shows.hash_kept t p;
    tries_kept = λ t p.
        subst (λ r. (n : ℕ) × Counted r n × (n ≤ 2) × (t < s.until → n ≡ s.wrong))
          (sym (
            generate-keeps redis.get_int server.other_int now t salt draws (attempts_key id channel)
              db on_tries))
          (shows.tries_kept t p);
    short = shows.short;
  }
    where
      same_kind : (kind : String) → (otp_key kind id other == otp_key kind id channel) ≡ false
      same_kind kind =
          test_of_codes _ _
            (concat-ne kind _ _ (concat-ne id _ _ (concat-ne ":" other channel differ)))

      on_hash : IsApart (hash_key id channel)
      on_hash = record {
        no_hash = same_kind "otp:hash:";
        no_tries = concat-apart "otp:attempts:" "otp:hash:" _ _ refl;
        no_sends = concat-apart "otp:sends:" "otp:hash:" _ _ refl;
      }

      on_tries : IsApart (attempts_key id channel)
      on_tries = record {
        no_hash = concat-apart "otp:hash:" "otp:attempts:" _ _ refl;
        no_tries = same_kind "otp:attempts:";
        no_sends = concat-apart "otp:sends:" "otp:attempts:" _ _ refl;
      }
