-- ===== src/Corp/Entities.antt =====
-- services/garudacorp/store/entity.go. The store copies every entity on its way in and out. The time
-- of a call and the UUIDs that it draws are arguments; `F` is the type of percentages.

use gpass.Prelude.{
  find_first, Dict, lookup, insert, values, ℤ, ℕ, suc, String, Bool, Option, none, some, List, [],
  ◌∷◌, ◌++◌, ◌==◌, Result, ok, err,
}

pub record EntityOfficer : Type 0 where
  pub id : String
  pub entity_id : String
  pub user_id : String
  pub nik_token : String
  pub name : String
  pub position : String
  pub appointment_date : String
  pub verified : Bool

pub record EntityShareholder (F : Type 0) : Type 0 where
  pub id : String
  pub entity_id : String
  pub name : String
  pub share_type : String
  pub shares : ℤ
  pub percentage : F

pub record Entity (F : Type 0) : Type 0 where
  pub id : String
  pub ahu_sk_number : String
  pub name : String
  pub entity_type : String
  pub status : String
  pub npwp : String
  pub address : String
  pub capital_auth : ℤ
  pub capital_paid : ℤ
  pub ahu_verified_at : ℕ
  pub oss_nib : String
  pub oss_verified_at : Option ℕ
  pub officers : List EntityOfficer
  pub shareholders : List (EntityShareholder F)
  pub created_at : ℕ
  pub updated_at : ℕ

abbrev pub EntityStore : Type 0 → Type 0
EntityStore F = Dict (Entity F)

pub data EntityError : Type 0 where
  entity_not_found : EntityError

-- the loop of `AddOfficers`, from index `i` on, which draws an id for each officer
unfoldable pub with_officer_ids :
    (ℕ → String) → ℕ → String → List EntityOfficer → List EntityOfficer
with_officer_ids uuids i entity_id [] = []
with_officer_ids uuids i entity_id (o ∷ os) =
    record o { id = uuids i; entity_id = entity_id } ∷ with_officer_ids uuids (suc i) entity_id os

module _ {F : Type 0} where
  abbrev pub entity_stamped : ℕ → String → Entity F → Entity F
  entity_stamped now uuid e = record e { id = uuid; created_at = now; updated_at = now }

  unfoldable pub create_entity : ℕ → String → Entity F → EntityStore F → Entity F × EntityStore F
  create_entity now uuid e s =
      (entity_stamped now uuid e, insert uuid (entity_stamped now uuid e) s)

  unfoldable pub get_entity : String → EntityStore F → Result EntityError (Entity F)
  get_entity id s = elim (lookup id s) [ none ↦ err entity_not_found | some e ↦ ok e ]

  -- the first entity that the loop over the map meets
  unfoldable pub get_entity_by_sk : String → EntityStore F → Result EntityError (Entity F)
  get_entity_by_sk sk s = elim (find_first (λ e. e.ahu_sk_number == sk) (values s)) [
    | none ↦ err entity_not_found
    | some e ↦ ok e
  ]

  -- the loop of `AddShareholders`
  unfoldable pub with_shareholder_ids :
      (ℕ → String) → ℕ → String → List (EntityShareholder F) → List (EntityShareholder F)
  with_shareholder_ids uuids i entity_id [] = []
  with_shareholder_ids uuids i entity_id (h ∷ hs) =
      record h { id = uuids i; entity_id = entity_id }
      ∷ with_shareholder_ids uuids (suc i) entity_id hs

  unfoldable pub add_officers :
      ℕ
      → (ℕ → String)
      → String
      → List EntityOfficer
      → EntityStore F
      → Result EntityError (EntityStore F)
  unfolding with_officer_ids
  add_officers now uuids entity_id officers s = elim (lookup entity_id s) [
    | none ↦ err entity_not_found
    | some e ↦ ok (
        insert entity_id
          (record e {
            officers = e.officers ++ with_officer_ids uuids 0 entity_id officers;
            updated_at = now;
          })
          s)
  ]

  unfoldable pub add_shareholders :
      ℕ
      → (ℕ → String)
      → String
      → List (EntityShareholder F)
      → EntityStore F
      → Result EntityError (EntityStore F)
  unfolding with_shareholder_ids
  add_shareholders now uuids entity_id shareholders s = elim (lookup entity_id s) [
    | none ↦ err entity_not_found
    | some e ↦ ok (
        insert entity_id
          (record e {
            shareholders = e.shareholders ++ with_shareholder_ids uuids 0 entity_id shareholders;
            updated_at = now;
          })
          s)
  ]
