-- ===== src/Policy/Decision.antt =====
-- What `Evaluate` of packages/golib/policy/engine.go decides: a denial that applies wins, wherever it
-- stands, then a permission.
use gpass.Prelude.{
  find_first, any_of, any_of-Perm, String, ◌≡◌, refl, sym, ap, ◌∙◌, inl, inr, Bool, true, false,
  not, ◌&&◌, Option, none, some, List, [], ◌∷◌, Perm, ◌==◌, if◌then◌else◌, Bool-cases,
}
use gpass.Policy.Engine.{
  Numbers, Policy, Request, policy_matches_request, conditions_met, first_allow, evaluate_loop,
  evaluate,
}

module _ {F : Type 0} (numbers : Numbers F) (req : Request F) where
  -- The policy is about the request, and its conditions hold.
  abbrev pub applies : Policy F → Bool
  applies p =
      policy_matches_request numbers p req && conditions_met numbers p.conditions req.context

  abbrev pub denies : Policy F → Bool
  denies p = applies p && p.effect == "DENY"

  abbrev pub allows : Policy F → Bool
  allows p = applies p && p.effect == "ALLOW"

  unfoldable pub decided : Option (Policy F) → Option String → Bool × String
  decided (some p) _ = (false, p.id)
  decided none (some id) = (true, id)
  decided none none = (false, "")

  abbrev pub first_id : Option String → Option (Policy F) → Option String
  first_id (some id) _ = some id
  first_id none none = none
  first_id none (some p) = some p.id

  first_id-first_allow :
      (allow : Option String) (p : Policy F) (o : Option (Policy F))
      → first_id (first_allow numbers allow p) o
        ≡ first_id allow (if p.effect == "ALLOW" then some p else o)
  unfolding first_allow
  first_id-first_allow (some id) p o = refl
  first_id-first_allow none p o = elim (Bool-cases (p.effect == "ALLOW")) [
    | inl e ↦ rw e refl
    | inr e ↦ rw e refl
  ]

  evaluate_loop_lem :
      (allow : Option String) (ps : List (Policy F))
      → evaluate_loop numbers req allow ps
        ≡ decided (find_first denies ps) (first_id allow (find_first allows ps))
  unfolding evaluate_loop first_allow find_first decided
  evaluate_loop_lem none [] = refl
  evaluate_loop_lem (some id) [] = refl
  evaluate_loop_lem allow (p ∷ ps) = elim (Bool-cases (applies p)) [
    | inr e ↦ rw (e, evaluate_loop, find_first) (evaluate_loop_lem allow ps)
    | inl e ↦ elim (Bool-cases (p.effect == "DENY")) [
      | inl f ↦ rw (e, f, evaluate_loop, find_first) refl
      | inr f ↦
          rw (e, f, evaluate_loop, find_first)
            (evaluate_loop_lem (first_allow numbers allow p) ps
              ∙ ap (decided (find_first denies ps))
                  (first_id-first_allow allow p (find_first allows ps)))
    ]
  ]

  -- `Evaluate` answers with the first policy that denies, if one that applies denies, or else with
  -- the first that allows, and refuses without a policy otherwise.
  pub evaluate_lem :
      (ps : List (Policy F))
      → evaluate numbers ps req
        ≡ decided (find_first denies ps) (first_id none (find_first allows ps))
  unfolding evaluate
  evaluate_lem ps = evaluate_loop_lem none ps

  decided-allowed :
      (ps qs : List (Policy F))
      → (decided (find_first denies ps) (first_id none (find_first allows qs))).0
        ≡ (not (any_of denies ps) && any_of allows qs)
  unfolding find_first any_of decided
  decided-allowed [] [] = refl
  decided-allowed [] (q ∷ qs) = elim (Bool-cases (allows q)) [
    | inl e ↦ rw (e, find_first, any_of) refl
    | inr e ↦ rw (e, find_first, any_of) (decided-allowed [] qs)
  ]
  decided-allowed (p ∷ ps) qs = elim (Bool-cases (denies p)) [
    | inl e ↦ rw (e, find_first, any_of) refl
    | inr e ↦ rw (e, find_first, any_of) (decided-allowed ps qs)
  ]

  -- Whether a request is allowed does not hang on the order of the policies.
  pub evaluate-Perm :
      {ps qs : List (Policy F)}
      → Perm ps qs
      → (evaluate numbers ps req).0 ≡ (evaluate numbers qs req).0
  evaluate-Perm {ps} {qs} perm =
      ap (λ r. r.0) (evaluate_lem ps)
      ∙ decided-allowed ps ps
      ∙ rw (any_of-Perm denies perm, any_of-Perm allows perm) (sym (decided-allowed qs qs))
      ∙ sym (ap (λ r. r.0) (evaluate_lem qs))
