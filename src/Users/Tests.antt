-- ===== src/Users/Tests.antt =====
-- Runs of services/identity/repository and the registration handler, and their theorems at concrete
-- inputs.
use gpass.Otp.Memory.{
  Memory, ends_after, live, put, counted_up, prolonged, erase, apply, apply_all, text_of, number_of,
  memory, memory-IsServer, plain, no_keys,
}
use gpass.Otp.Codes.{generate_code, store_code, generate}
use gpass.Prelude.{
  any_of, lookup, insert, pos, String, ◌≡◌, refl, ◌≢◌, ◌⊎◌, true, false, Option, none, some, [],
  ◌∷◌, ◌==◌, if◌then◌else◌, ok, err, Reply, reply, fault, is_fault,
}
use gpass.Users.Indexed.{UserReach, empty, created, updated, UserReach-one_user}
use gpass.Users.Repository.{
  User, UserRepository, user_not_found, duplicate_nik_token, no_randomness, dangling,
  new_repository, user_stamped, create_user, get_user_by_id, get_user_by_nik_token, user_verified,
  update_verification_status, user_exists,
}
use gpass.Users.Nik.{is_digit, all_digits, province_code, validate_nik_format}
use gpass.Users.Register.{
  NikVerifyResponse, InitiateRequest, InitiateResponse, Draw, send_otps, initiate_known, initiate,
}
use gpass.Users.Initiated.{initiate_cases, IsInitiated}

program : Unit {0}
unfolding create_user get_user_by_id get_user_by_nik_token update_verification_status user_exists
    lookup insert
program = tt

abbrev ani : User
ani = record {
  id = "";
  keycloak_id = "k1";
  nik_token = "t1";
  nik_masked = "************0001";
  name_enc = 1 ∷ [];
  dob_enc = [];
  gender = "F";
  phone_hash = "p";
  phone_enc = [];
  email_hash = "e";
  email_enc = [];
  address_enc = [];
  wrapped_dek = 7 ∷ [];
  auth_level = pos 1;
  verification_status = "PENDING";
  dukcapil_verified_at = none;
  created_at = 0;
  updated_at = 0;
}

abbrev with_ani : UserRepository
with_ani = record { users = ("u1", user_stamped 5 "u1" ani) ∷ []; by_nik = ("t1", "u1") ∷ [] }

abbrev verified : UserRepository
verified = record with_ani {
  users = ("u1", user_verified 8 "VERIFIED" (user_stamped 5 "u1" ani)) ∷ [];
}

-- The same NIK is registered once.
runs :
    (create_user 5 (some "u1") ani new_repository ≡ ok (user_stamped 5 "u1" ani, with_ani))
    × (create_user 6 (some "u2") ani with_ani ≡ err duplicate_nik_token)
    × (create_user 6 none (record ani { nik_token = "t2" }) with_ani ≡ err no_randomness)
    × (get_user_by_nik_token "t2" with_ani ≡ err user_not_found)
    × (user_exists "t1" with_ani ≡ true)
unfolding program
runs = (refl, refl, refl, refl, refl)

verified-reached : UserReach verified
unfolding program
verified-reached = updated 8 "u1" "VERIFIED" (created 5 "u1" ani empty refl refl) refl

UserReach-one_user_example :
    ((id : String) (u : User)
      → get_user_by_id id verified ≡ ok u
      → get_user_by_nik_token u.nik_token verified ≡ ok u)
    × ((i j : String) (u v : User)
        → get_user_by_id i verified ≡ ok u
        → get_user_by_id j verified ≡ ok v
        → u.nik_token ≡ v.nik_token
        → i ≡ j)
    × ((token : String) → get_user_by_nik_token token verified ≢ err dangling)
UserReach-one_user_example = UserReach-one_user verified-reached

abbrev sixes : Draw
sixes = record { salt = 0; digits = λ turn. some 6 }

abbrev population : String → Option NikVerifyResponse
population nik =
    if nik == "3171010101900001"
    then some (record { valid = true; alive = true })
    else some (record { valid = false; alive = false })

abbrev asking : String → InitiateRequest
asking nik = record { nik = nik; phone = "0812"; email = "ani@example.com" }

abbrev initiated : String → Memory × Reply InitiateResponse
initiated nik =
    initiate memory plain population 5 (some "reg1") sixes sixes (some (asking nik)) no_keys

registrations :
    ((initiated "3171010101900001").1
      ≡ reply 200 (record { registration_id = "reg1"; otp_expires_at = 300000000005 }))
    × ((initiated "3171010101900002").1 ≡ fault 400 "invalid_nik" "NIK is not valid")
    × ((initiated "317101010190000").1 ≡ fault 400 "invalid_nik" "NIK must be exactly 16 digits")
    × ((initiated "0171010101900001").1 ≡ fault 400 "invalid_nik" "invalid province code: 1")
unfolding program is_digit all_digits province_code validate_nik_format send_otps initiate_known
    initiate generate store_code generate_code apply_all apply put erase live ends_after text_of
    number_of counted_up prolonged any_of
registrations = (refl, refl, refl, refl)

initiate_cases_example :
    (is_fault (initiated "3171010101900001").1 ≡ true)
    ⊎ IsInitiated memory memory-IsServer plain 5 sixes sixes population
        (some "reg1")
        (some (asking "3171010101900001"))
        no_keys
        (initiated "3171010101900001")
initiate_cases_example =
    initiate_cases memory memory-IsServer plain 5 sixes sixes population (some "reg1")
      (some (asking "3171010101900001")) no_keys
