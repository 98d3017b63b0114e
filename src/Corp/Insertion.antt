-- ===== src/Corp/Insertion.antt =====
-- A `sort.Slice` for the runs of the analysis: sorting by insertion keeps what is asked of it.
use gpass.Prelude.{
  ◌≡◌, refl, inl, inr, Bool, true, false, List, [], ◌∷◌, arith, if◌then◌else◌, Bool-cases,
}
use mathlib.Core.List.Permᴰ
use mathlib.Core.List.{Permᴰ, Pairwise, Mem, Memᴰ, not-mem-nil}
use mathlib.Core.Logic.{∥∥₁_elim}
use mathlib.Core.Bool.{Bool-set}
use gpass.Corp.Owners.{IsWeakOrder, IsSort}

module _ {A : Type 0} (less : A → A → Bool) where
  unfoldable insert_by : A → List A → List A
  insert_by x [] = x ∷ []
  insert_by x (y ∷ ys) = if less x y then x ∷ y ∷ ys else y ∷ insert_by x ys

  unfoldable pub sort_by : List A → List A
  unfolding insert_by
  sort_by [] = []
  sort_by (x ∷ xs) = insert_by x (sort_by xs)

  insert_by-Permᴰ : (x : A) (ys : List A) → Permᴰ (insert_by x ys) (x ∷ ys)
  unfolding insert_by
  insert_by-Permᴰ x [] = Permᴰ.refl (x ∷ [])
  insert_by-Permᴰ x (y ∷ ys) = elim (Bool-cases (less x y)) [
    | inl e ↦ rw e (Permᴰ.refl (x ∷ y ∷ ys))
    | inr e ↦ rw e (Permᴰ.trans (Permᴰ.cons refl (insert_by-Permᴰ x ys)) (Permᴰ.swap refl refl))
  ]

  sort_by-Permᴰ : (xs : List A) → Permᴰ (sort_by xs) xs
  unfolding sort_by
  sort_by-Permᴰ [] = Permᴰ.nil
  sort_by-Permᴰ (x ∷ xs) =
      Permᴰ.trans (insert_by-Permᴰ x (sort_by xs)) (Permᴰ.cons refl (sort_by-Permᴰ xs))

  abbrev Ordered : List A → Type 0
  Ordered = Pairwise (λ a b. less b a ≡ false)

  module _ (order : IsWeakOrder less) where
    below : (x y z : A) → less x y ≡ true → less z y ≡ false → less z x ≡ false
    below x y z h k = elim (Bool-cases (less z x)) [
      | inl e ↦ absurd (ground (arith, order.transitive z x y e h, k))
      | inr e ↦ e
    ]

    first_below :
        (x y : A) (ys : List A) (w : A)
        → less x y ≡ true
        → ((a : A) → Mem a ys → less a y ≡ false)
        → Mem w (y ∷ ys)
        → less w x ≡ false
    first_below x y ys w h k m = ∥∥₁_elim m (Bool-set _ _) (λ d. at d)
      where
        at : Memᴰ w (y ∷ ys) → less w x ≡ false
        at (Memᴰ.head e) = below x y w h (rw e (order.irreflexive y))
        at (Memᴰ.tail d) = below x y w h (k w ∣ d ∣₁)

    later_below :
        (x y : A) (ys : List A) (w : A)
        → less x y ≡ false
        → ((a : A) → Mem a ys → less a y ≡ false)
        → Mem w (x ∷ ys)
        → less w y ≡ false
    later_below x y ys w h k m = ∥∥₁_elim m (Bool-set _ _) (λ d. at d)
      where
        at : Memᴰ w (x ∷ ys) → less w y ≡ false
        at (Memᴰ.head e) = rw e h
        at (Memᴰ.tail d) = k w ∣ d ∣₁

    insert_by-Ordered : (x : A) (ys : List A) → Ordered ys → Ordered (insert_by x ys)
    unfolding insert_by
    insert_by-Ordered x [] h = Pairwise.cons (λ w m. absurd (not-mem-nil m)) Pairwise.nil
    insert_by-Ordered x (y ∷ ys) (Pairwise.cons k h) = elim (Bool-cases (less x y)) [
      | inl e ↦ rw e (Pairwise.cons (λ w m. first_below x y ys w e k m) (Pairwise.cons k h))
      | inr e ↦ rw e (
          Pairwise.cons (λ w m. later_below x y ys w e k (Permᴰ.mem (insert_by-Permᴰ x ys) m))
            (insert_by-Ordered x ys h))
    ]

    sort_by-Ordered : (xs : List A) → Ordered (sort_by xs)
    unfolding sort_by
    sort_by-Ordered [] = Pairwise.nil
    sort_by-Ordered (x ∷ xs) = insert_by-Ordered x (sort_by xs) (sort_by-Ordered xs)

pub sort_by-IsSort : {A : Type 0} → IsSort {A = A} sort_by
sort_by-IsSort = record {
  permutes = λ less xs. ∣ sort_by-Permᴰ less xs ∣₁;
  orders = λ less xs order. sort_by-Ordered less order xs;
}
