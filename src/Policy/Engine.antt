-- ===== src/Policy/Engine.antt =====
-- Conditions and `Evaluate` of packages/golib/policy/engine.go. A dynamic value is a scalar, a slice of
-- texts or a slice of scalars. Floats, their order and the printing of numbers are a parameter.
use gpass.Prelude.{
  codes, concat, any_of, Dict, lookup, ℤ, pos, String, Bool, true, false, not, ◌&&◌, Option, none,
  some, List, [], ◌∷◌, ◌++◌, map, ◌==◌, if◌then◌else◌,
}
use gpass.Policy.Match.{find_part, matches}

pub record Numbers (F : Type 0) : Type 0 where
  pub of_int : ℤ → F
  pub above : F → F → Bool
  pub at_least : F → F → Bool
  pub show_int : ℤ → String
  pub show_float : F → String

pub data Scalar (F : Type 0) : Type 0 where
  text : String → Scalar F
  integer : ℤ → Scalar F
  float : F → Scalar F
  flag : Bool → Scalar F

pub data Value (F : Type 0) : Type 0 where
  scalar : Scalar F → Value F
  texts : List String → Value F
  items : List (Scalar F) → Value F

pub record Condition (F : Type 0) : Type 0 where
  pub key : String
  pub operator : String
  pub value : Value F

pub record Policy (F : Type 0) : Type 0 where
  pub id : String
  pub name : String
  pub effect : String
  pub subjects : List String
  pub resources : List String
  pub actions : List String
  pub conditions : List (Condition F)

-- A `nil` map of the context is `none`.
pub record Request (F : Type 0) : Type 0 where
  pub subject : String
  pub resource : String
  pub action : String
  pub context : Option (Dict (Value F))

-- `strings.Contains(s, part)`
unfoldable pub contains_text : String → String → Bool
contains_text s part = elim (find_part (codes part) (codes s) 0) [ none ↦ false | some _ ↦ true ]

unfoldable pub spaced : List String → String
spaced [] = ""
spaced (s ∷ []) = s
spaced (s ∷ t ∷ rest) = concat s (concat " " (spaced (t ∷ rest)))

module _ {F : Type 0} (numbers : Numbers F) where
  unfoldable pub show_scalar : Scalar F → String
  show_scalar (text s) = s
  show_scalar (integer n) = numbers.show_int n
  show_scalar (float x) = numbers.show_float x
  show_scalar (flag b) = if b then "true" else "false"

  -- `fmt.Sprintf("%v", v)`
  unfoldable pub show_value : Value F → String
  unfolding show_scalar spaced
  show_value (scalar v) = show_scalar v
  show_value (texts l) = concat "[" (concat (spaced l) "]")
  show_value (items l) = concat "[" (concat (spaced (map show_scalar l)) "]")

  unfoldable pub to_float : Value F → F
  to_float (scalar (integer n)) = numbers.of_int n
  to_float (scalar (float x)) = x
  to_float _ = numbers.of_int (pos 0)

  unfoldable pub eval_in : Value F → Value F → Bool
  unfolding show_value
  eval_in v (texts l) = any_of (λ item. item == show_value v) l
  eval_in v (items l) = any_of (λ item. show_scalar item == show_value v) l
  eval_in v (scalar _) = false

  -- the `switch` on the operator
  unfoldable pub compare_values : String → Value F → Value F → Bool
  unfolding to_float eval_in
  compare_values operator v w =
      if operator == "eq"
      then show_value v == show_value w
      else if operator == "neq"
      then not (show_value v == show_value w)
      else if operator == "gt"
      then numbers.above (to_float v) (to_float w)
      else if operator == "lt"
      then numbers.above (to_float w) (to_float v)
      else if operator == "gte"
      then numbers.at_least (to_float v) (to_float w)
      else if operator == "lte"
      then numbers.at_least (to_float w) (to_float v)
      else if operator == "in"
      then eval_in v w
      else if operator == "contains"
      then contains_text (show_value v) (show_value w)
      else if operator == "matches"
      then matches (show_value w) (show_value v)
      else false

  unfoldable pub evaluate_condition : Condition F → Option (Dict (Value F)) → Bool
  unfolding compare_values
  evaluate_condition cond none = false
  evaluate_condition cond (some ctx) = elim (lookup cond.key ctx) [
    | none ↦ false
    | some v ↦ compare_values cond.operator v cond.value
  ]

  abbrev pub match_any : List String → String → Bool
  match_any patterns value = any_of (λ p. matches p value) patterns

  unfoldable pub policy_matches_request : Policy F → Request F → Bool
  policy_matches_request p req =
      (match_any p.subjects req.subject && match_any p.resources req.resource)
      && match_any p.actions req.action

  -- the loop over the conditions, which stops at the first that fails
  unfoldable pub conditions_met : List (Condition F) → Option (Dict (Value F)) → Bool
  unfolding evaluate_condition
  conditions_met [] ctx = true
  conditions_met (c ∷ cs) ctx =
      if not (evaluate_condition c ctx) then false else conditions_met cs ctx

  -- `if p.Effect == "ALLOW" && !hasAllow`
  unfoldable pub first_allow : Option String → Policy F → Option String
  first_allow (some id) p = some id
  first_allow none p = if p.effect == "ALLOW" then some p.id else none

  -- The loop of `Evaluate`, with the id of the first policy that allows, if there was one.
  unfoldable pub evaluate_loop : Request F → Option String → List (Policy F) → Bool × String
  unfolding policy_matches_request conditions_met first_allow
  evaluate_loop req none [] = (false, "")
  evaluate_loop req (some id) [] = (true, id)
  evaluate_loop req allow (p ∷ ps) =
      elim (policy_matches_request p req && conditions_met p.conditions req.context) [
        | false ↦ evaluate_loop req allow ps
        | true ↦ elim (p.effect == "DENY") [
          | true ↦ (false, p.id)
          | false ↦ evaluate_loop req (first_allow allow p) ps
        ]
      ]

  unfoldable pub evaluate : List (Policy F) → Request F → Bool × String
  unfolding evaluate_loop
  evaluate policies req = evaluate_loop req none policies

-- `AddPolicy`; an engine is the list of its policies.
abbrev pub add_policy : {F : Type 0} → Policy F → List (Policy F) → List (Policy F)
add_policy p policies = policies ++ p ∷ []
