-- ===== src/Users/Initiated.antt =====
-- For whom services/identity/handler/register.go starts a registration.
use gpass.Prelude.{
  codes, length, All, ℕ, ◌+◌, ◌≤◌, String, ◌≡◌, refl, ap, ◌≢◌, ◌↔◌, ◌⊎◌, inl, inr, true, not, ◌||◌,
  Option, none, some, List, [], ◌∷◌, arith, ltb, Bool-cases, Option-cases, ok, reject, Result-cases,
  >>-eq-ok, reject-eq-ok, Reply, reply, is_fault,
}
use gpass.Otp.Codes.{otp_ttl, generate}
use gpass.Otp.Redis.{Redis, IsServer, Bcrypt}
use gpass.Otp.Session.{Shows}
use gpass.Otp.Issue.{fresh_session, generate-starts, generate-hashed}
use gpass.Otp.Apart.{generate-Shows}
use gpass.Users.Nik.{
  is_digit, all_digits, nik_regex, not_sixteen_digits, province_code, validate_nik_format,
}
use gpass.Users.Register.{
  NikVerifyResponse, InitiateRequest, InitiateResponse, Draw, send_otps, initiate_known, initiate,
}

-- Sixteen digits, the first two of which are at least 11.
pub record IsNik (nik : String) : Type 0 where
  pub sixteen : length (codes nik) ≡ 16
  pub digits : All (λ c. (48 ≤ c) × (c ≤ 57)) (codes nik)
  pub province : 11 ≤ province_code (codes nik)

all_digits-All : (s : List ℕ) → all_digits s ≡ true → All (λ c. (48 ≤ c) × (c ≤ 57)) s
unfolding all_digits is_digit
all_digits-All [] h = tt
all_digits-All (c ∷ s) h = (ground (arith, h), all_digits-All s (ground (arith, h)))

all_digits_of_All : (s : List ℕ) → All (λ c. (48 ≤ c) × (c ≤ 57)) s → all_digits s ≡ true
unfolding all_digits is_digit
all_digits_of_All [] h = refl
all_digits_of_All (c ∷ s) h = ground (arith, h.0, all_digits_of_All s h.1)

-- Two digits make at most 99, so that this bound never decides.
province_code_le : (s : List ℕ) → All (λ c. (48 ≤ c) × (c ≤ 57)) s → province_code s ≤ 99
unfolding province_code
province_code_le [] h = omega arith
province_code_le (a ∷ []) h = omega arith
province_code_le (a ∷ b ∷ s) h = omega (arith, h.0, h.1.0)

validate_nik_format_iff : (nik : String) → (validate_nik_format nik ≡ ok tt) ↔ IsNik nik
unfolding validate_nik_format
validate_nik_format_iff nik = (
  λ h.
      let (formed, known) =
        >>-eq-ok (reject (not (nik_regex (codes nik))) not_sixteen_digits) _ h in
      let shape = reject-eq-ok (not (nik_regex (codes nik))) not_sixteen_digits formed in
      let bounds =
        reject-eq-ok (ltb (province_code (codes nik)) 11 || ltb 99 (province_code (codes nik))) _
          known in
      record {
        sixteen = ground (arith, shape);
        digits = all_digits-All (codes nik) (ground (arith, shape));
        province = ground (arith, bounds);
      },
  λ h.
      let every = all_digits_of_All (codes nik) h.digits in
      ground (arith, every, h.sixteen, h.province, province_code_le (codes nik) h.digits),
)

module _ {Db : Type 0} (redis : Redis Db) (server : IsServer redis) (bcrypt : Bcrypt) (now : ℕ)
    (first second : Draw) where
  -- the store once `Generate` has run for the phone
  abbrev sent_phone : String → Db → Db
  sent_phone id db = (generate redis bcrypt now first.salt first.digits id "phone" db).0

  -- The store holds, for both channels, the hash of the code that was drawn.
  pub record IsSent (id : String) (db : Db) (answer : Db × Reply InitiateResponse) : Type 0 where
    pub phone : String
    pub email : String
    pub phone_stored :
        (generate redis bcrypt now first.salt first.digits id "phone" db).1 ≡ ok phone
    pub email_stored :
        generate redis bcrypt now second.salt second.digits id "email" (sent_phone id db)
        ≡ (answer.0, ok email)
    pub phone_hash : String
    pub phone_hashed : bcrypt.hash_password first.salt phone ≡ ok phone_hash
    pub phone_kept : Shows redis id "phone" now answer.0 (fresh_session now phone_hash)
    pub email_hash : String
    pub email_hashed : bcrypt.hash_password second.salt email ≡ ok email_hash
    pub email_kept : Shows redis id "email" now answer.0 (fresh_session now email_hash)
    pub answered :
        answer.1 ≡ reply 200 (record { registration_id = id; otp_expires_at = now + otp_ttl })

  channels : codes "email" ≢ codes "phone"
  channels e = ground (arith, e)

  both_kept :
      (id phone email : String) (db : Db)
      → (generate redis bcrypt now first.salt first.digits id "phone" db).1 ≡ ok phone
      → (generate redis bcrypt now second.salt second.digits id "email" (sent_phone id db)).1
        ≡ ok email
      → IsSent id db (
        (generate redis bcrypt now second.salt second.digits id "email" (sent_phone id db)).0,
        reply 200 (record { registration_id = id; otp_expires_at = now + otp_ttl }),
      )
  both_kept id phone email db p m =
      let (h, e) =
        generate-hashed redis server bcrypt id "phone" now first.salt first.digits phone db p in
      let (k, f) =
        generate-hashed redis server bcrypt id "email" now second.salt second.digits email
          (sent_phone id db) m in
      record {
        phone = phone;
        email = email;
        phone_stored = p;
        email_stored =
            ap
              (λ o. (
                (generate redis bcrypt now second.salt second.digits id "email"
                    (sent_phone id db)).0,
                o,
              ))
              m;
        phone_hash = h;
        phone_hashed = e;
        phone_kept =
            generate-Shows redis server bcrypt id "email" "phone" now now second.salt second.digits
              (sent_phone id db) (fresh_session now h) channels
              (generate-starts redis server bcrypt id "phone" now first.salt first.digits phone h db
                p e);
        email_hash = k;
        email_hashed = f;
        email_kept =
            generate-starts redis server bcrypt id "email" now second.salt second.digits email k
              (sent_phone id db) m f;
        answered = refl;
      }

  send_otps_cases :
      (id : String) (db : Db)
      → (is_fault (send_otps redis bcrypt now first second id db).1 ≡ true)
        ⊎ IsSent id db (send_otps redis bcrypt now first second id db)
  unfolding send_otps
  send_otps_cases id db =
      elim (Result-cases (generate redis bcrypt now first.salt first.digits id "phone" db).1) [
        | inr (x, e) ↦ inl (rw (e, send_otps) refl)
        | inl (phone, e) ↦
            elim (Result-cases
              (generate redis bcrypt now second.salt second.digits id "email"
                (sent_phone id db)).1) [
                  | inr (x, m) ↦ inl (rw (e, send_otps) (rw m refl))
                  | inl (email, m) ↦
                      inr (rw (e, send_otps) (rw m (both_kept id phone email db e m)))
                ]
      ]

  module _ (dukcapil : String → Option NikVerifyResponse) (drawn : Option String) where
    -- What has happened where the answer is 200.
    pub record IsInitiated (body : Option InitiateRequest) (db : Db)
        (answer : Db × Reply InitiateResponse) : Type 0 where
      pub req : InitiateRequest
      pub asked : body ≡ some req
      pub well_formed : IsNik req.nik
      pub known : NikVerifyResponse
      pub verified : dukcapil req.nik ≡ some known
      pub valid : known.valid ≡ true
      pub alive : known.alive ≡ true
      pub id : String
      pub fresh : drawn ≡ some id
      pub sent : IsSent id db answer

    -- On a Redis server that answers, Initiate answers with an error, or the NIK is well-formed,
    -- Dukcapil says that it is valid and that its holder lives, and for each of the two channels the
    -- server keeps, under the fresh id that is answered, the hash of a new code for five minutes, with
    -- no wrong code counted yet.
    pub initiate_cases :
        (body : Option InitiateRequest) (db : Db)
        → (is_fault (initiate redis bcrypt dukcapil now drawn first second body db).1 ≡ true)
          ⊎ IsInitiated body db (initiate redis bcrypt dukcapil now drawn first second body db)
    unfolding initiate initiate_known send_otps
    initiate_cases none db = inl refl
    initiate_cases (some req) db = elim (Result-cases (validate_nik_format req.nik)) [
      | inr (e, f) ↦ inl (rw (f, initiate) refl)
      | inl (u, f) ↦ elim (Option-cases (dukcapil req.nik)) [
        | inl d ↦ inl (rw (f, initiate) (rw d refl))
        | inr (known, d) ↦ elim (Bool-cases known.valid) [
          | inr v ↦ inl (rw (f, initiate) (rw d (rw v refl)))
          | inl v ↦ elim (Bool-cases known.alive) [
            | inr a ↦ inl (rw (f, initiate) (rw d (rw v (rw a refl))))
            | inl a ↦ elim (Option-cases drawn) [
              | inl r ↦ inl (rw (f, initiate) (rw d (rw v (rw a (rw r refl)))))
              | inr (id, r) ↦ elim (send_otps_cases id db) [
                | inl failure ↦ inl (rw (f, initiate) (rw d (rw v (rw a (rw r failure)))))
                | inr sent ↦ inr (
                    rw (f, initiate)
                      (rw d (
                        rw v (
                          rw a (
                            rw r (record {
                              req = req;
                              asked = refl;
                              well_formed = (validate_nik_format_iff req.nik).0 f;
                              known = known;
                              verified = d;
                              valid = v;
                              alive = a;
                              id = id;
                              fresh = refl;
                              sent = sent;
                            }))))))
              ]
            ]
          ]
        ]
      ]
    ]
