-- ===== src/Policy/Tests.antt =====
-- Runs of packages/golib/policy, and its theorems at concrete inputs.
use gpass.Prelude.{
  codes, find_first, any_of, lookup, ℕ, String, ◌≡◌, refl, true, false, not, some, [], ◌∷◌, leb,
}
use mathlib.Core.List.{Permᴰ}
use gpass.Policy.Match.{
  has_star, split_star, strip_part, find_part, match_parts, ends_with_star, matches_codes, matches,
}
use gpass.Policy.Globs.{Globs, matches-Globs}
use gpass.Policy.Decision.{decided, evaluate_lem, evaluate-Perm}
use gpass.Policy.Engine.{
  Numbers, float, scalar, Policy, Request, contains_text, spaced, show_scalar, show_value, to_float,
  eval_in, compare_values, evaluate_condition, policy_matches_request, conditions_met, first_allow,
  evaluate_loop, evaluate,
}

program : Unit {0}
unfolding has_star split_star strip_part find_part match_parts ends_with_star matches_codes matches
    show_value to_float eval_in compare_values evaluate_condition policy_matches_request
    conditions_met first_allow evaluate_loop evaluate any_of find_first lookup contains_text spaced
    show_scalar
program = tt

-- Floats as whole numbers: what the runs below compare.
abbrev whole : Numbers ℕ
whole = record {
  of_int = λ n. 0;
  above = λ x y. not (leb x y);
  at_least = λ x y. leb y x;
  show_int = λ n. "int";
  show_float = λ x. "float";
}

abbrev reads : Policy ℕ
reads = record {
  id = "p1";
  name = "reads";
  effect = "ALLOW";
  subjects = "user:*" ∷ [];
  resources = "doc:*" ∷ [];
  actions = "read" ∷ [];
  conditions = [];
}

abbrev locked : Policy ℕ
locked = record reads {
  id = "p2";
  effect = "DENY";
  resources = "doc:locked*" ∷ [];
  conditions = record { key = "level"; operator = "lt"; value = scalar (float 3) } ∷ [];
}

abbrev asked : String → ℕ → Request ℕ
asked resource level = record {
  subject = "user:ana";
  resource = resource;
  action = "read";
  context = some (("level", scalar (float level)) ∷ []);
}

-- A denial behind a permission wins, if its condition holds.
runs :
    (evaluate whole (reads ∷ locked ∷ []) (asked "doc:locked/1" 2) ≡ (false, "p2"))
    × (evaluate whole (reads ∷ locked ∷ []) (asked "doc:locked/1" 3) ≡ (true, "p1"))
    × (evaluate whole (reads ∷ locked ∷ []) (asked "img:1" 2) ≡ (false, ""))
unfolding program
runs = (refl, refl, refl)

-- `Match` takes the first place where a part stands, so that it refuses a text that ends as the
-- pattern says.
first_place : (matches "*ab" "abab" ≡ false) × (matches "*ab" "cab" ≡ true)
unfolding program
first_place = (refl, refl)

matches-Globs_example : Globs (codes "doc:*/v*") (codes "doc:7/v2")
unfolding program
matches-Globs_example = matches-Globs "doc:*/v*" "doc:7/v2" refl

evaluate_lem_example : evaluate whole (reads ∷ locked ∷ []) (asked "doc:locked/1" 2) ≡ (false, "p2")
unfolding program decided
evaluate_lem_example = evaluate_lem whole (asked "doc:locked/1" 2) (reads ∷ locked ∷ [])

evaluate-Perm_example :
    (evaluate whole (reads ∷ locked ∷ []) (asked "doc:locked/1" 2)).0
    ≡ (evaluate whole (locked ∷ reads ∷ []) (asked "doc:locked/1" 2)).0
evaluate-Perm_example = evaluate-Perm whole (asked "doc:locked/1" 2) ∣ Permᴰ.swap refl refl ∣₁
