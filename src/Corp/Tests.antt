-- ===== src/Corp/Tests.antt =====
-- Runs of services/garudacorp, and its theorems at concrete inputs. Percentages are whole numbers.
use gpass.Prelude.{
  concat, one_of, contains_any, select, find_first, any_of, lookup, insert, values, pos, ℕ, ◌+◌,
  String, ◌≡◌, refl, ◌≢◌, ◌⊎◌, true, Option, none, some, List, [], ◌∷◌, arith, ◌==◌, ltb, leb,
  if◌then◌else◌, ok, err, reply, fault,
}
use gpass.Roles.Reach.{IsOfficer}
use gpass.Corp.Officers.{start, registering, IsMade, CorpReach-IsOfficer}
use gpass.Roles.Roles.{assign}
use gpass.Corp.Validate.{
  bounded, require_bounded, validate_officer, check_accesses, validate_role, validate_entity,
  validate_shareholder, check_owner, check_owners, validate_ubo_result,
}
use gpass.Corp.Register.{
  CompanySearchResponse, AhuOfficer, AhuShareholder, AhuVerifier, RegisterRequest, Drawn,
  RegisterAnswer, store_entity, found_entity, register_company, register,
}
use gpass.Corp.Entities.{
  Entity, with_officer_ids, create_entity, get_entity, get_entity_by_sk, with_shareholder_ids,
  add_officers, add_shareholders,
}
use gpass.Corp.Ubo.{
  Floats, AnalysisResult, Shareholder, direct_owner, larger, direct_owners, with_director, analyze,
  UboStore, save_ubo, get_ubo_by_entity,
}
use gpass.Corp.Serve.{analyze_entity, analyze_ubo, get_ubo, handle_get_entity}
use gpass.Corp.Founding.{founded, IsRefused, register_cases, IsRegistered}
use gpass.Corp.Owners.{IsWeakOrder, analyze-IsAnalysis, IsAnalysis}
use gpass.Corp.Insertion.{sort_by, sort_by-IsSort}
use gpass.Corp.Unsaved.{analyze_entity-refused}

program : Unit {0}
unfolding with_officer_ids create_entity get_entity get_entity_by_sk with_shareholder_ids
    add_officers add_shareholders store_entity found_entity register_company register direct_owners
    with_director analyze save_ubo get_ubo_by_entity bounded require_bounded validate_officer
    check_accesses validate_role validate_entity validate_shareholder check_owner check_owners
    validate_ubo_result analyze_entity analyze_ubo get_ubo handle_get_entity lookup insert values
    select find_first any_of one_of contains_any assign
program = tt

abbrev percents : Floats ℕ
percents = record {
  nought = 0;
  quarter = 25;
  hundred = 100;
  tolerated = 100;
  above = λ x y. ltb y x;
  at_least = λ x y. leb y x;
  plus = λ x y. x + y;
}

abbrev company : CompanySearchResponse
company = record {
  found = true;
  sk_number = "AHU-1";
  name = "PT Maju";
  entity_type = "PT";
  status = "ACTIVE";
  npwp = "01";
  address = "Jakarta";
  capital_auth = pos 100;
  capital_paid = pos 50;
}

abbrev director : AhuOfficer
director = record {
  nik = "3171";
  name = "Ani";
  position = "DIREKTUR_UTAMA";
  appointment_date = "2020";
}

abbrev holder : AhuShareholder ℕ
holder = record { name = "Budi"; share_type = "INDIVIDUAL"; shares = pos 60; percentage = 60 }

abbrev ahu : AhuVerifier ℕ
ahu = record {
  search_company = λ sk. if sk == "AHU-1" then some company else none;
  get_officers = λ sk. some (director ∷ []);
  get_shareholders = λ sk. some (holder ∷ []);
}

abbrev drawn : Drawn
drawn = record {
  now = 9;
  entity_uuid = "e1";
  role_uuid = "r1";
  officer_uuids = λ i. "o";
  shareholder_uuids = λ i. "h";
}

abbrev asked : RegisterRequest
asked = record { sk_number = "AHU-1"; caller_user_id = "ani"; caller_nik = "3171" }

abbrev same_nik : String → String
same_nik nik = nik

abbrev done : RegisterAnswer ℕ
done = register same_nik ahu drawn (some asked) [] []

-- The director registers the company; another caller does not.
runs :
    (done.2 ≡ reply 201 (record { entity_id = "e1"; role = "REGISTERED_OFFICER" }))
    × ((register same_nik ahu drawn (some (record asked { caller_nik = "3172" })) [] []).2
        ≡ fault 403 "not_authorized" "Caller is not a Direktur Utama of this company")
unfolding program
runs = (refl, refl)

register_cases_example :
    IsRefused same_nik ahu drawn [] [] done
    ⊎ ((req : RegisterRequest) × (some asked ≡ some req)
        × IsRegistered same_nik ahu drawn req [] [] done)
register_cases_example = register_cases same_nik ahu drawn (some asked) [] []

-- `%q` of a plain text
abbrev in_quotes : String → String
in_quotes s = concat "\"" (concat s "\"")

CorpReach-IsOfficer_example :
    IsOfficer "r1" "e1" "ani" []
    ⊎ IsMade same_nik in_quotes (λ now. ahu) ([], []) "r1" "e1" "ani" (done.0, done.1)
unfolding program
CorpReach-IsOfficer_example =
    CorpReach-IsOfficer same_nik in_quotes (λ now. ahu) ([], []) "r1" "e1" "ani"
      (registering start drawn (some asked))
      (record { held_role = _; held = refl; level = refl; in_entity = refl; own = refl })

percents-IsWeakOrder : IsWeakOrder (larger percents)
percents-IsWeakOrder = record {
  irreflexive = λ a. ground arith;
  transitive = λ a b c h k. ground (arith, h, k);
  even = λ a b c h i j k. ground (arith, h, i, j, k);
}

abbrev held : String → ℕ → Shareholder ℕ
held name percentage = record {
  name = name;
  nik_token = "";
  share_type = "INDIVIDUAL";
  shares = pos percentage;
  percentage = percentage;
}

abbrev shares : List (Shareholder ℕ)
shares = held "Citra" 30 ∷ held "Dewi" 10 ∷ held "Budi" 60 ∷ []

-- Of three shareholders, the two that hold a quarter are owners, the larger first.
analysis :
    (analyze percents sort_by "now" "e1" "PT Maju" shares []).beneficial_owners
    ≡ direct_owner percents "now" (held "Budi" 60)
      ∷ direct_owner percents "now" (held "Citra" 30)
      ∷ []
unfolding program sort_by
analysis = refl

analyze-IsAnalysis_example :
    IsAnalysis percents "now" shares [] (analyze percents sort_by "now" "e1" "PT Maju" shares [])
analyze-IsAnalysis_example =
    analyze-IsAnalysis percents sort_by "now" "e1" "PT Maju" shares [] sort_by-IsSort
      percents-IsWeakOrder

abbrev registered : Entity ℕ
registered = founded same_nik drawn "3171" company (director ∷ []) (holder ∷ [])

analyze_entity-refused_example :
    validate_ubo_result percents (analyze_entity percents sort_by "now" registered) ≢ ok tt
analyze_entity-refused_example =
    analyze_entity-refused percents sort_by "now" registered sort_by-IsSort.permutes

-- `Save` of a store that validates first, as the Postgres store does
abbrev validating_save : AnalysisResult ℕ → UboStore ℕ → Option (UboStore ℕ)
validating_save r s = elim (validate_ubo_result percents r) [
  | ok _ ↦ some (save_ubo r s)
  | err _ ↦ none
]

-- With it, the handler fails for a registered company.
unsaved :
    (analyze_ubo percents sort_by validating_save "now" "e1" (("e1", registered) ∷ []) []).1
    ≡ fault 500 "internal_error" "Failed to save analysis result"
unfolding program sort_by
unsaved = refl
