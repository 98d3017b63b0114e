-- ===== src/Corp/Register.antt =====
-- services/garudacorp/handler/register.go, with the data of ahu/types.go. The AHU client is a
-- parameter, and so is the token of a NIK, the HMAC-SHA256 with the service's key.
use gpass.Prelude.{
  any_of, ℤ, ℕ, String, Bool, not, ◌&&◌, Option, none, some, List, [], ◌∷◌, map, ◌==◌,
  if◌then◌else◌, Result, ok, err, Reply, reply, fault,
}
use gpass.Roles.Roles.{EntityRole, RoleStore, assign}
use gpass.Corp.Entities.{
  EntityOfficer, EntityShareholder, Entity, EntityStore, EntityError, create_entity, add_officers,
  add_shareholders,
}

pub record CompanySearchResponse : Type 0 where
  pub found : Bool
  pub sk_number : String
  pub name : String
  pub entity_type : String
  pub status : String
  pub npwp : String
  pub address : String
  pub capital_auth : ℤ
  pub capital_paid : ℤ

pub record AhuOfficer : Type 0 where
  pub nik : String
  pub name : String
  pub position : String
  pub appointment_date : String

pub record AhuShareholder (F : Type 0) : Type 0 where
  pub name : String
  pub share_type : String
  pub shares : ℤ
  pub percentage : F

-- `none` is an error of the client.
pub record AhuVerifier (F : Type 0) : Type 0 where
  pub search_company : String → Option CompanySearchResponse
  pub get_officers : String → Option (List AhuOfficer)
  pub get_shareholders : String → Option (List (AhuShareholder F))

pub record RegisterRequest : Type 0 where
  pub sk_number : String
  pub caller_user_id : String
  pub caller_nik : String

pub record RegisterResponse : Type 0 where
  pub entity_id : String
  pub role : String

-- what a call draws: the clock, and fresh ids
pub record Drawn : Type 0 where
  pub now : ℕ
  pub entity_uuid : String
  pub role_uuid : String
  pub officer_uuids : ℕ → String
  pub shareholder_uuids : ℕ → String

abbrev pub registered_role : String → String → EntityRole
registered_role entity_id user_id = record {
  id = "";
  entity_id = entity_id;
  user_id = user_id;
  role = "REGISTERED_OFFICER";
  granted_by = "system";
  service_access = "signing" ∷ "garudainfo" ∷ [];
  status = "";
  granted_at = 0;
  revoked_at = none;
}

module _ (tokenize : String → String) where
  -- one turn of the loop that looks for the caller
  abbrev pub is_caller : String → AhuOfficer → Bool
  is_caller nik o = tokenize o.nik == tokenize nik && o.position == "DIREKTUR_UTAMA"

  abbrev pub new_officer : String → AhuOfficer → EntityOfficer
  new_officer caller_nik o = record {
    id = "";
    entity_id = "";
    user_id = "";
    nik_token = tokenize o.nik;
    name = o.name;
    position = o.position;
    appointment_date = o.appointment_date;
    verified = tokenize o.nik == tokenize caller_nik;
  }

abbrev pub RegisterAnswer : Type 0 → Type 0
RegisterAnswer F = EntityStore F × RoleStore × Reply RegisterResponse

module _ {F : Type 0} where
  abbrev pub new_shareholder : AhuShareholder F → EntityShareholder F
  new_shareholder h = record {
    id = "";
    entity_id = "";
    name = h.name;
    share_type = h.share_type;
    shares = h.shares;
    percentage = h.percentage;
  }

  abbrev pub new_entity : ℕ → CompanySearchResponse → Entity F
  new_entity now company = record {
    id = "";
    ahu_sk_number = company.sk_number;
    name = company.name;
    entity_type = company.entity_type;
    status = company.status;
    npwp = company.npwp;
    address = company.address;
    capital_auth = company.capital_auth;
    capital_paid = company.capital_paid;
    ahu_verified_at = now;
    oss_nib = "";
    oss_verified_at = none;
    officers = [];
    shareholders = [];
    created_at = 0;
    updated_at = 0;
  }

  -- an error of the store is logged, and the call goes on
  abbrev pub stored_or : EntityStore F → Result EntityError (EntityStore F) → EntityStore F
  stored_or s (ok t) = t
  stored_or s (err _) = s

  -- `shareholders = nil` after an error
  abbrev pub or_nil : Option (List (AhuShareholder F)) → List (AhuShareholder F)
  or_nil none = []
  or_nil (some hs) = hs

module _ {F : Type 0} (tokenize : String → String) where
  -- steps 6 to 8: the entity with its officers and its shareholders
  unfoldable pub store_entity :
      Drawn
      → String
      → CompanySearchResponse
      → List AhuOfficer
      → List (AhuShareholder F)
      → EntityStore F
      → EntityStore F
  unfolding create_entity add_officers add_shareholders
  store_entity drawn caller_nik company officers shareholders s =
      let (e, created) =
        create_entity drawn.now drawn.entity_uuid (new_entity drawn.now company) s in
      let staffed = stored_or created (
        add_officers drawn.now drawn.officer_uuids e.id
          (map (new_officer tokenize caller_nik) officers) created) in
      elim shareholders [
        | [] ↦ staffed
        | h ∷ hs ↦ stored_or staffed (
            add_shareholders drawn.now drawn.shareholder_uuids e.id (map new_shareholder (h ∷ hs))
              staffed)
      ]

  -- steps 6 to 9
  unfoldable pub found_entity :
      Drawn
      → RegisterRequest
      → CompanySearchResponse
      → List AhuOfficer
      → List (AhuShareholder F)
      → EntityStore F
      → RoleStore
      → RegisterAnswer F
  unfolding store_entity assign
  found_entity drawn req company officers shareholders s roles = (
    store_entity drawn req.caller_nik company officers shareholders s,
    (assign drawn.now drawn.role_uuid (registered_role drawn.entity_uuid req.caller_user_id)
        roles).1,
    reply 201 (record { entity_id = drawn.entity_uuid; role = "REGISTERED_OFFICER" }),
  )

  -- steps 1 to 5
  unfoldable pub register_company :
      AhuVerifier F → Drawn → RegisterRequest → EntityStore F → RoleStore → RegisterAnswer F
  unfolding found_entity
  register_company ahu drawn req s roles = elim (ahu.search_company req.sk_number) [
    | none ↦ (s, roles, fault 502 "ahu_unavailable" "AHU service is unavailable")
    | some company ↦
        if not company.found
        then (
          s,
          roles,
          fault 404 "company_not_found" "Company with the given SK number was not found",
        )
        else elim (ahu.get_officers req.sk_number) [
          | none ↦ (s, roles, fault 502 "ahu_unavailable" "AHU service is unavailable")
          | some officers ↦
              if not (any_of (is_caller tokenize req.caller_nik) officers)
              then (
                s,
                roles,
                fault 403 "not_authorized" "Caller is not a Direktur Utama of this company",
              )
              else found_entity drawn req company officers
                  (or_nil (ahu.get_shareholders req.sk_number)) s roles
        ]
  ]

  -- `Register`; a body that is no JSON is `none`.
  unfoldable pub register :
      AhuVerifier F → Drawn → Option RegisterRequest → EntityStore F → RoleStore → RegisterAnswer F
  unfolding register_company
  register ahu drawn none s roles = (s, roles, fault 400 "invalid_request" "Invalid JSON body")
  register ahu drawn (some req) s roles =
      if req.sk_number == ""
      then (s, roles, fault 400 "invalid_request" "sk_number is required")
      else if req.caller_user_id == ""
      then (s, roles, fault 400 "invalid_request" "caller_user_id is required")
      else if req.caller_nik == ""
      then (s, roles, fault 400 "invalid_request" "caller_nik is required")
      else register_company ahu drawn req s roles
