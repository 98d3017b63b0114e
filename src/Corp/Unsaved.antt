-- ===== src/Corp/Unsaved.antt =====
-- The analysis of services/garudacorp/handler/ubo.go against the validator of the Postgres store.

use gpass.Prelude.{
  one_of, select, find_first, any_of, any_of-Perm, String, ◌≡◌, refl, ◌∙◌, ◌≢◌, inl, inr, Bool,
  true, false, not, List, [], ◌∷◌, map, Perm, arith, ◌==◌, Option-cases, ok, reject, >>-eq-ok,
  reject-eq-ok,
}
use gpass.Corp.Validate.{
  is_required, not_allowed, allowed_ownership_types, allowed_ubo_statuses, require_bounded,
  check_owner, check_owners, validate_ubo_result,
}
use gpass.Corp.Entities.{EntityShareholder, Entity}
use gpass.Corp.Ubo.{
  Floats, BeneficialOwner, AnalysisResult, Officer, Sort, reaches, direct_owner, controlling,
  direct_owners, leads, with_director, status_of, analyze,
}
use gpass.Corp.Serve.{to_officer, to_shareholder, analyze_entity}

module _ {F : Type 0} (floats : Floats F) where
  -- An owner of this kind passes no test of the validator.
  abbrev named : BeneficialOwner F → Bool
  named bo = not (bo.nik_token == "")

  check_owner-unnamed : (bo : BeneficialOwner F) → named bo ≡ false → check_owner floats bo ≢ ok tt
  unfolding check_owner require_bounded
  check_owner-unnamed bo h e =
      let (token, _) =
        >>-eq-ok (require_bounded "ubo.nik_token" bo.nik_token 64) _
          (>>-eq-ok (require_bounded "ubo.name" bo.name 255) _ e).1 in
      ground (
        arith,
        reject-eq-ok (bo.nik_token == "") (is_required "ubo.nik_token")
            (>>-eq-ok (reject (bo.nik_token == "") (is_required "ubo.nik_token")) _ token).0,
        h,
      )

  check_owner-unknown :
      (bo : BeneficialOwner F)
      → one_of allowed_ownership_types bo.ownership_type ≡ false
      → check_owner floats bo ≢ ok tt
  unfolding check_owner
  check_owner-unknown bo h e =
      let (_, tested) =
        >>-eq-ok (require_bounded "ubo.nik_token" bo.nik_token 64) _
          (>>-eq-ok (require_bounded "ubo.name" bo.name 255) _ e).1 in
      let known =
        reject-eq-ok (not (one_of allowed_ownership_types bo.ownership_type))
          (not_allowed "ownership_type" bo.ownership_type) (>>-eq-ok _ _ tested).0 in
      ground (arith, known, h)

  check_owners-first :
      (total : F) (bo : BeneficialOwner F) (bos : List (BeneficialOwner F))
      → check_owners floats total (bo ∷ bos) ≡ ok tt
      → check_owner floats bo ≡ ok tt
  unfolding check_owners
  check_owners-first total bo bos e = (>>-eq-ok (check_owner floats bo) _ e).0

  validate_ubo_result-parts :
      (r : AnalysisResult F)
      → validate_ubo_result floats r ≡ ok tt
      → (one_of allowed_ubo_statuses r.status ≡ true)
        × (check_owners floats floats.nought r.beneficial_owners ≡ ok tt)
  unfolding validate_ubo_result
  validate_ubo_result-parts r e =
      let (_, a) = >>-eq-ok (require_bounded "entity_id" r.entity_id 128) _ e in
      let (_, b) = >>-eq-ok (require_bounded "entity_name" r.entity_name 500) _ a in
      let (_, c) = >>-eq-ok (reject (r.criteria == "") (is_required "criteria")) _ b in
      let (status, owners) =
        >>-eq-ok
          (reject (not (one_of allowed_ubo_statuses r.status)) (not_allowed "ubo status" r.status))
          _ c in
      let known = reject-eq-ok (not (one_of allowed_ubo_statuses r.status)) _ status in
      (ground (arith, known), owners)

  -- with the owners by shares, none of whom has a token
  with_director-refused :
      (now : String) (officers : List Officer) (os : List (BeneficialOwner F))
      → any_of named os ≡ false
      → one_of allowed_ubo_statuses (status_of floats (with_director floats now officers os)) ≡ true
      → check_owners floats floats.nought (with_director floats now officers os) ≢ ok tt
  unfolding with_director any_of one_of
  with_director-refused now officers (o ∷ os) h s e =
      check_owner-unnamed o (ground (arith, h)) (check_owners-first floats.nought o os e)
  with_director-refused now officers [] h s e =
      elim (Option-cases (find_first (leads floats) officers)) [
        | inl f ↦ let status = rw (f, with_director) at s in unlisted status
        | inr (off, f) ↦
            let owners = rw (f, with_director) at e in
            check_owner-unknown (controlling floats now off) refl
              (check_owners-first floats.nought (controlling floats now off) [] owners)
      ]
    where
      unlisted : one_of allowed_ubo_statuses "INSUFFICIENT_DATA" ≢ true
      unlisted e = ground (arith, e)

  any_of-unnamed :
      (now : String) (hs : List (EntityShareholder F))
      → any_of named
          (map (direct_owner floats now) (select (reaches floats) (map to_shareholder hs)))
        ≡ false
  unfolding any_of select
  any_of-unnamed now [] = refl
  any_of-unnamed now (h ∷ hs) = ground (arith, any_of-unnamed now hs)

  -- If sort.Slice keeps the elements that it sorts, the validator that guards the Postgres store refuses
  -- every result of AnalyzeUBO, whatever entity it analyses: an owner by shares has no NIK token, control by a director is no ownership type that
  -- it knows, and INSUFFICIENT_DATA no status.
  pub analyze_entity-refused :
      (sort : Sort F) (now : String) (e : Entity F)
      → ((less : BeneficialOwner F → BeneficialOwner F → Bool) (xs : List (BeneficialOwner F))
          → Perm (sort less xs) xs)
      → validate_ubo_result floats (analyze_entity floats sort now e) ≢ ok tt
  unfolding analyze_entity analyze direct_owners
  analyze_entity-refused sort now e permutes h =
      let (status, owners) = validate_ubo_result-parts (analyze_entity floats sort now e) h in
      with_director-refused now (map to_officer e.officers)
        (direct_owners floats sort now (map to_shareholder e.shareholders))
        (any_of-Perm named (permutes _ _) ∙ any_of-unnamed now e.shareholders) status owners
