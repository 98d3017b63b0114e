-- ===== src/Corp/Ubo.antt =====
-- services/garudacorp/ubo/analyzer.go and store/ubo.go. The floats of percentages and `sort.Slice` are
-- parameters; the time of an analysis is given as the code prints it.
use gpass.Prelude.{
  select, find_first, Dict, lookup, insert, values, ℤ, String, Bool, none, some, List, [], ◌∷◌, map,
  ◌==◌, Result, ok, err,
}

-- float64, with the literals of the code
pub record Floats (F : Type 0) : Type 0 where
  pub nought : F
  pub quarter : F
  pub hundred : F
  pub tolerated : F
  pub above : F → F → Bool
  pub at_least : F → F → Bool
  pub plus : F → F → F

pub record BeneficialOwner (F : Type 0) : Type 0 where
  pub name : String
  pub nik_token : String
  pub ownership_type : String
  pub percentage : F
  pub source : String
  pub verified_at : String

pub record AnalysisResult (F : Type 0) : Type 0 where
  pub entity_id : String
  pub entity_name : String
  pub beneficial_owners : List (BeneficialOwner F)
  pub analyzed_at : String
  pub criteria : String
  pub status : String

pub record Shareholder (F : Type 0) : Type 0 where
  pub name : String
  pub nik_token : String
  pub share_type : String
  pub shares : ℤ
  pub percentage : F

pub record Officer : Type 0 where
  pub name : String
  pub nik_token : String
  pub position : String

abbrev pub Sort : Type 0 → Type 0
Sort F =
    (BeneficialOwner F → BeneficialOwner F → Bool)
    → List (BeneficialOwner F)
    → List (BeneficialOwner F)

module _ {F : Type 0} (floats : Floats F) where
  abbrev pub reaches : Shareholder F → Bool
  reaches sh = floats.at_least sh.percentage floats.quarter

  abbrev pub direct_owner : String → Shareholder F → BeneficialOwner F
  direct_owner now sh = record {
    name = sh.name;
    nik_token = sh.nik_token;
    ownership_type = "DIRECT_SHARES";
    percentage = sh.percentage;
    source = "AHU";
    verified_at = now;
  }

  abbrev pub controlling : String → Officer → BeneficialOwner F
  controlling now off = record {
    name = off.name;
    nik_token = off.nik_token;
    ownership_type = "DIRECTOR_CONTROL";
    percentage = floats.nought;
    source = "AHU";
    verified_at = now;
  }

  -- the order that the code gives to `sort.Slice`
  abbrev pub larger : BeneficialOwner F → BeneficialOwner F → Bool
  larger a b = floats.above a.percentage b.percentage

  -- step 1, with the sort
  unfoldable pub direct_owners : Sort F → String → List (Shareholder F) → List (BeneficialOwner F)
  direct_owners sort now shareholders =
      sort larger (map (direct_owner now) (select reaches shareholders))

  abbrev pub leads : Officer → Bool
  leads off = off.position == "DIREKTUR_UTAMA"

  -- step 2
  unfoldable pub with_director :
      String → List Officer → List (BeneficialOwner F) → List (BeneficialOwner F)
  with_director now officers (o ∷ os) = o ∷ os
  with_director now officers [] = elim (find_first leads officers) [
    | none ↦ []
    | some off ↦ controlling now off ∷ []
  ]

  abbrev pub status_of : List (BeneficialOwner F) → String
  status_of [] = "INSUFFICIENT_DATA"
  status_of (_ ∷ _) = "IDENTIFIED"

  unfoldable pub analyze :
      Sort F → String → String → String → List (Shareholder F) → List Officer → AnalysisResult F
  unfolding direct_owners with_director
  analyze sort now entity_id entity_name shareholders officers =
      let owners = with_director now officers (direct_owners sort now shareholders) in
      record {
        entity_id = entity_id;
        entity_name = entity_name;
        beneficial_owners = owners;
        analyzed_at = now;
        criteria = "PP_13_2018";
        status = status_of owners;
      }

abbrev pub UboStore : Type 0 → Type 0
UboStore F = Dict (AnalysisResult F)

pub data UboError : Type 0 where
  ubo_not_found : UboError

module _ {F : Type 0} where
  unfoldable pub save_ubo : AnalysisResult F → UboStore F → UboStore F
  save_ubo result s = insert result.entity_id result s

  unfoldable pub get_ubo_by_entity : String → UboStore F → Result UboError (AnalysisResult F)
  get_ubo_by_entity entity_id s = elim (lookup entity_id s) [
    | none ↦ err ubo_not_found
    | some r ↦ ok r
  ]

  abbrev pub list_ubo : UboStore F → List (AnalysisResult F)
  list_ubo s = values s
