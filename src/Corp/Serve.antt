-- ===== src/Corp/Serve.antt =====
-- services/garudacorp/handler/ubo.go and handler/entity.go. The OSS client is a parameter.
use gpass.Prelude.{
  ℤ, String, Bool, Option, none, some, List, [], map, ◌==◌, if◌then◌else◌, ok, err, Reply, reply,
  fault,
}
use gpass.Corp.Entities.{
  EntityOfficer, EntityShareholder, Entity, EntityStore, entity_not_found, get_entity,
}
use gpass.Corp.Ubo.{
  Floats, AnalysisResult, Shareholder, Officer, Sort, analyze, UboStore, ubo_not_found,
  get_ubo_by_entity,
}

-- Of the answer of the OSS client, what the handler reads; `Businesses` is passed on unread.
pub record NibSearchResponse (B : Type 0) : Type 0 where
  pub found : Bool
  pub nib : String
  pub businesses : List B

pub record EntityResponse (F B : Type 0) : Type 0 where
  pub id : String
  pub ahu_sk_number : String
  pub name : String
  pub entity_type : String
  pub status : String
  pub npwp : String
  pub address : String
  pub capital_auth : ℤ
  pub capital_paid : ℤ
  pub officers : List EntityOfficer
  pub shareholders : List (EntityShareholder F)
  pub oss_nib : String
  pub oss_businesses : List B

abbrev pub to_officer : EntityOfficer → Officer
to_officer off = record { name = off.name; nik_token = off.nik_token; position = off.position }

module _ {F : Type 0} where
  abbrev pub to_shareholder : EntityShareholder F → Shareholder F
  to_shareholder sh = record {
    name = sh.name;
    nik_token = "";
    share_type = sh.share_type;
    shares = sh.shares;
    percentage = sh.percentage;
  }

  unfoldable pub analyze_entity : Floats F → Sort F → String → Entity F → AnalysisResult F
  unfolding analyze
  analyze_entity floats sort now e =
      analyze floats sort now e.id e.name (map to_shareholder e.shareholders)
        (map to_officer e.officers)

  -- `AnalyzeUBO`; `save` is the store's, and fails with `none`.
  unfoldable pub analyze_ubo :
      Floats F
      → Sort F
      → (AnalysisResult F → UboStore F → Option (UboStore F))
      → String
      → String
      → EntityStore F
      → UboStore F
      → UboStore F × Reply (AnalysisResult F)
  unfolding get_entity analyze_entity
  analyze_ubo floats sort save now entity_id entities s =
      if entity_id == ""
      then (s, fault 400 "invalid_request" "entity_id is required")
      else elim (get_entity entity_id entities) [
        | err entity_not_found ↦ (s, fault 404 "entity_not_found" "Entity not found")
        | ok e ↦
            let result = analyze_entity floats sort now e in
            elim (save result s) [
              | none ↦ (s, fault 500 "internal_error" "Failed to save analysis result")
              | some t ↦ (t, reply 200 result)
            ]
      ]

  unfoldable pub get_ubo : String → UboStore F → Reply (AnalysisResult F)
  unfolding get_ubo_by_entity
  get_ubo entity_id s =
      if entity_id == ""
      then fault 400 "invalid_request" "entity_id is required"
      else elim (get_ubo_by_entity entity_id s) [
        | err ubo_not_found ↦ fault 404 "ubo_not_found" "UBO analysis not found for this entity"
        | ok r ↦ reply 200 r
      ]

module _ {F B : Type 0} where
  abbrev pub entity_response : Entity F → EntityResponse F B
  entity_response e = record {
    id = e.id;
    ahu_sk_number = e.ahu_sk_number;
    name = e.name;
    entity_type = e.entity_type;
    status = e.status;
    npwp = e.npwp;
    address = e.address;
    capital_auth = e.capital_auth;
    capital_paid = e.capital_paid;
    officers = e.officers;
    shareholders = e.shareholders;
    oss_nib = "";
    oss_businesses = [];
  }

  -- an answer of the OSS client that found the company is added
  abbrev pub enriched : Option (NibSearchResponse B) → EntityResponse F B → EntityResponse F B
  enriched none resp = resp
  enriched (some found) resp =
      if found.found
      then record resp { oss_nib = found.nib; oss_businesses = found.businesses }
      else resp

  -- `GetEntity`; a nil client is `none`.
  unfoldable pub handle_get_entity :
      Option (String → Option (NibSearchResponse B))
      → String
      → EntityStore F
      → Reply (EntityResponse F B)
  unfolding get_entity
  handle_get_entity oss id s =
      if id == ""
      then fault 400 "invalid_request" "entity id is required"
      else elim (get_entity id s) [
        | err entity_not_found ↦ fault 404 "entity_not_found" "Entity not found"
        | ok e ↦ elim oss [
          | none ↦ reply 200 (entity_response e)
          | some search ↦
              if e.npwp == ""
              then reply 200 (entity_response e)
              else reply 200 (enriched (search e.npwp) (entity_response e))
        ]
      ]
