-- ===== src/Corp/Owners.antt =====
-- Whom the analysis of services/garudacorp/ubo/analyzer.go names.
use gpass.Prelude.{
  select, find_first, any_of, String, ◌≡◌, refl, sym, ◌≢◌, Bool, true, false, none, some, List, [],
  ◌∷◌, map, Perm, arith,
}
use mathlib.Core.List.{Pairwise}
use mathlib.Core.List.Perm
use mathlib.Core.Path.{subst}
use gpass.Corp.Ubo.{
  Floats, BeneficialOwner, AnalysisResult, Shareholder, Officer, Sort, reaches, direct_owner,
  controlling, larger, direct_owners, leads, with_director, status_of, analyze,
}

-- What the documentation of package sort asks of a `less` function.
pub record IsWeakOrder {A : Type 0} (less : A → A → Bool) : Type 0 where
  pub irreflexive : (a : A) → less a a ≡ false
  pub transitive : (a b c : A) → less a b ≡ true → less b c ≡ true → less a c ≡ true
  pub even :
      (a b c : A)
      → less a b ≡ false
      → less b a ≡ false
      → less b c ≡ false
      → less c b ≡ false
      → (less a c ≡ false) × (less c a ≡ false)

-- What it promises of `sort.Slice`: the elements stay, and stand in order.
pub record IsSort {A : Type 0} (sort : (A → A → Bool) → List A → List A) : Type 0 where
  pub permutes : (less : A → A → Bool) (xs : List A) → Perm (sort less xs) xs
  pub orders :
      (less : A → A → Bool) (xs : List A)
      → IsWeakOrder less
      → Pairwise (λ a b. less b a ≡ false) (sort less xs)

select-none {ℓ} : {A : Type ℓ} (p : A → Bool) (xs : List A) → any_of p xs ≡ false → select p xs ≡ []
unfolding select any_of
select-none p [] h = refl
select-none p (x ∷ xs) h = ground (arith, h, select-none p xs)

select-some {ℓ} : {A : Type ℓ} (p : A → Bool) (xs : List A) → any_of p xs ≡ true → select p xs ≢ []
unfolding select any_of
select-some p [] h e = cc
select-some p (x ∷ xs) h e = ground (arith, h, e, select-some p xs)

module _ {F : Type 0} (floats : Floats F) where
  -- What an analysis of PP 13/2018 is to say of the shareholders and the officers of a company.
  pub record IsAnalysis (now : String) (shareholders : List (Shareholder F))
      (officers : List Officer) (r : AnalysisResult F) : Type 0 where
    -- The owners are the shareholders that reach the threshold, no one left out, the largest first.
    pub holders :
        any_of (reaches floats) shareholders ≡ true
        → Perm r.beneficial_owners
            (map (direct_owner floats now) (select (reaches floats) shareholders))
          × Pairwise (λ a b. larger floats b a ≡ false) r.beneficial_owners
          × (r.status ≡ "IDENTIFIED")
    -- Without one, the first Direktur Utama is the owner,
    pub director :
        (off : Officer)
        → any_of (reaches floats) shareholders ≡ false
        → find_first (leads floats) officers ≡ some off
        → (r.beneficial_owners ≡ controlling floats now off ∷ []) × (r.status ≡ "IDENTIFIED")
    -- and without one of these, nobody is.
    pub nobody :
        any_of (reaches floats) shareholders ≡ false
        → find_first (leads floats) officers ≡ none
        → (r.beneficial_owners ≡ []) × (r.status ≡ "INSUFFICIENT_DATA")

  with_director-held :
      (now : String) (officers : List Officer) (os : List (BeneficialOwner F))
      → os ≢ []
      → (with_director floats now officers os ≡ os) × (status_of floats os ≡ "IDENTIFIED")
  unfolding with_director
  with_director-held now officers [] h = absurd (h refl)
  with_director-held now officers (o ∷ os) h = (refl, refl)

  map-nil : {A B : Type 0} (f : A → B) (xs : List A) → map f xs ≡ [] → xs ≡ []
  map-nil f [] h = refl
  map-nil f (x ∷ xs) h = cc

  module _ (sort : Sort F) (laws : IsSort sort) (now : String)
      (shareholders : List (Shareholder F)) where
    direct_owners-Perm :
        Perm
          (direct_owners floats sort now shareholders)
          (map (direct_owner floats now) (select (reaches floats) shareholders))
    unfolding direct_owners
    direct_owners-Perm = laws.permutes _ _

    direct_owners-none :
        any_of (reaches floats) shareholders ≡ false
        → direct_owners floats sort now shareholders ≡ []
    direct_owners-none h = Perm.eq-nil (
        subst
          (λ l. Perm (direct_owners floats sort now shareholders) (map (direct_owner floats now) l))
          (select-none (reaches floats) shareholders h) direct_owners-Perm)

    direct_owners-some :
        any_of (reaches floats) shareholders ≡ true
        → direct_owners floats sort now shareholders ≢ []
    direct_owners-some h e = select-some (reaches floats) shareholders h (
        map-nil (direct_owner floats now) (select (reaches floats) shareholders) (
          sym (
            Perm.nil-eq (
              subst
                (λ l. Perm l (map (direct_owner floats now) (select (reaches floats) shareholders)))
                e direct_owners-Perm))))

  -- Under the laws of sort.Slice and of an order of percentages, Analyze names each shareholder that
  -- reaches the threshold, the largest first, or else the first Direktur Utama, or else nobody; its
  -- status says whether there is an owner.
  pub analyze-IsAnalysis :
      (sort : Sort F) (now entity_id entity_name : String) (shareholders : List (Shareholder F))
      (officers : List Officer)
      → IsSort sort
      → IsWeakOrder (larger floats)
      → IsAnalysis now shareholders officers
          (analyze floats sort now entity_id entity_name shareholders officers)
  unfolding analyze direct_owners
  analyze-IsAnalysis sort now entity_id entity_name shareholders officers laws order = record {
    holders = λ h.
        let (same, named) =
          with_director-held now officers (direct_owners floats sort now shareholders)
            (direct_owners-some sort laws now shareholders h) in
        (
          rw same (direct_owners-Perm sort laws now shareholders),
          rw same (laws.orders _ _ order),
          rw same named,
        );
    director = λ off h f.
        rw (direct_owners-none sort laws now shareholders h) (rw (f, with_director) (refl, refl));
    nobody = λ h f.
        rw (direct_owners-none sort laws now shareholders h) (rw (f, with_director) (refl, refl));
  }
