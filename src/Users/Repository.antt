-- ===== src/Users/Repository.antt =====
-- services/identity/repository/user_memory.go, with the `User` of repository/user.go. The repository
-- copies every user on its way in and out. The time of a call and the UUID are arguments; `none` for
-- the UUID is an error of the random source.

use gpass.Prelude.{
  Dict, lookup, insert, ℤ, ℕ, String, Bool, true, false, Option, none, some, List, [], Result, ok,
  err,
}

pub record User : Type 0 where
  pub id : String
  pub keycloak_id : String
  pub nik_token : String
  pub nik_masked : String
  pub name_enc : List ℕ
  pub dob_enc : List ℕ
  pub gender : String
  pub phone_hash : String
  pub phone_enc : List ℕ
  pub email_hash : String
  pub email_enc : List ℕ
  pub address_enc : List ℕ
  pub wrapped_dek : List ℕ
  pub auth_level : ℤ
  pub verification_status : String
  pub dukcapil_verified_at : Option ℕ
  pub created_at : ℕ
  pub updated_at : ℕ

-- users by id, and ids by NIK token
pub record UserRepository : Type 0 where
  pub users : Dict User
  pub by_nik : Dict String

-- `dangling` is the nil pointer that a stale index entry leads to.
pub data UserError : Type 0 where
  user_not_found duplicate_nik_token no_randomness dangling : UserError

abbrev pub new_repository : UserRepository
new_repository = record { users = []; by_nik = [] }

abbrev pub user_stamped : ℕ → String → User → User
user_stamped now uuid u = record u { id = uuid; created_at = now; updated_at = now }

unfoldable pub create_user :
    ℕ → Option String → User → UserRepository → Result UserError (User × UserRepository)
create_user now drawn u r = elim (lookup u.nik_token r.by_nik) [
  | some _ ↦ err duplicate_nik_token
  | none ↦ elim drawn [
    | none ↦ err no_randomness
    | some uuid ↦ ok (
      user_stamped now uuid u,
      record {
        users = insert uuid (user_stamped now uuid u) r.users;
        by_nik = insert u.nik_token uuid r.by_nik;
      },
    )
  ]
]

unfoldable pub get_user_by_id : String → UserRepository → Result UserError User
get_user_by_id id r = elim (lookup id r.users) [ none ↦ err user_not_found | some u ↦ ok u ]

unfoldable pub get_user_by_nik_token : String → UserRepository → Result UserError User
get_user_by_nik_token token r = elim (lookup token r.by_nik) [
  | none ↦ err user_not_found
  | some id ↦ elim (lookup id r.users) [ none ↦ err dangling | some u ↦ ok u ]
]

abbrev pub user_verified : ℕ → String → User → User
user_verified now status u = record u { verification_status = status; updated_at = now }

unfoldable pub update_verification_status :
    ℕ → String → String → UserRepository → Result UserError UserRepository
update_verification_status now id status r = elim (lookup id r.users) [
  | none ↦ err user_not_found
  | some u ↦ ok (record r { users = insert id (user_verified now status u) r.users })
]

unfoldable pub user_exists : String → UserRepository → Bool
user_exists token r = elim (lookup token r.by_nik) [ none ↦ false | some _ ↦ true ]
