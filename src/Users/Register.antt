-- ===== src/Users/Register.antt =====
-- services/identity/handler/register.go. The Dukcapil client is a parameter; the id of the registration
-- and the drawn digits are arguments. The codes that Generate returns are dropped, as in the code.
use gpass.Prelude.{
  concat, ℕ, ◌+◌, ◌/◌, ◌%◌, String, Bool, not, Option, none, some, ltb, if◌then◌else◌, ok, err,
  Reply, reply, fault,
}
use gpass.Otp.Codes.{otp_ttl, digit, generate}
use gpass.Otp.Redis.{Redis, Bcrypt}
use gpass.Users.Nik.{NikError, not_sixteen_digits, invalid_province, validate_nik_format}

pub record NikVerifyResponse : Type 0 where
  pub valid : Bool
  pub alive : Bool

pub record InitiateRequest : Type 0 where
  pub nik : String
  pub phone : String
  pub email : String

pub record InitiateResponse : Type 0 where
  pub registration_id : String
  pub otp_expires_at : ℕ

-- what one call of `Generate` draws
pub record Draw : Type 0 where
  pub salt : ℕ
  pub digits : ℕ → Option ℕ

-- `%d` of a number below 100, which a province code is
abbrev pub show_code : ℕ → String
show_code n = if ltb n 10 then digit n else concat (digit (n / 10)) (digit (n % 10))

abbrev pub nik_error_text : NikError → String
nik_error_text not_sixteen_digits = "NIK must be exactly 16 digits"
nik_error_text (invalid_province code) = concat "invalid province code: " (show_code code)

module _ {Db : Type 0} (redis : Redis Db) (bcrypt : Bcrypt) where
  abbrev pub not_sent : Reply InitiateResponse
  not_sent = fault 500 "internal_error" "Failed to send OTP"

  -- the two calls of `Generate`, and the answer
  unfoldable pub send_otps : ℕ → Draw → Draw → String → Db → Db × Reply InitiateResponse
  send_otps now first second id db =
      let (db₁, phone) = generate redis bcrypt now first.salt first.digits id "phone" db in
      elim phone [
        | err _ ↦ (db₁, not_sent)
        | ok _ ↦
            let (db₂, email) = generate redis bcrypt now second.salt second.digits id "email" db₁ in
            elim email [
              | err _ ↦ (db₂, not_sent)
              | ok _ ↦
                  (db₂, reply 200 (record { registration_id = id; otp_expires_at = now + otp_ttl }))
            ]
      ]

  -- once Dukcapil knows the NIK
  unfoldable pub initiate_known :
      ℕ → Option String → Draw → Draw → NikVerifyResponse → Db → Db × Reply InitiateResponse
  unfolding send_otps
  initiate_known now drawn first second known db =
      if not known.valid
      then (db, fault 400 "invalid_nik" "NIK is not valid")
      else if not known.alive
      then (db, fault 400 "deceased" "NIK belongs to a deceased individual")
      else elim drawn [
        | none ↦ (db, fault 500 "internal_error" "Failed to process registration")
        | some id ↦ send_otps now first second id db
      ]

  unfoldable pub initiate :
      (String → Option NikVerifyResponse)
      → ℕ
      → Option String
      → Draw
      → Draw
      → Option InitiateRequest
      → Db
      → Db × Reply InitiateResponse
  unfolding initiate_known
  initiate dukcapil now drawn first second none db =
      (db, fault 400 "invalid_request" "Invalid JSON body")
  initiate dukcapil now drawn first second (some req) db = elim (validate_nik_format req.nik) [
    | err e ↦ (db, fault 400 "invalid_nik" (nik_error_text e))
    | ok _ ↦ elim (dukcapil req.nik) [
      | none ↦ (db, fault 502 "dukcapil_unavailable" "Identity verification service is unavailable")
      | some known ↦ initiate_known now drawn first second known db
    ]
  ]
