-- ===== src/Prelude/Maps.antt =====
-- Go's `map[string]V` as an association list. The order of the list is the order in which one
-- `range` loop happens to visit the entries: theorems range over every list, so over every order.
use Prim.Native.String.{String}
use mathlib.Core.Path.{◌≡◌, refl}
use mathlib.Core.Bool.{false}
use mathlib.Core.List.{List, [], ◌∷◌}
use mathlib.Core.Option.{Option, none, some}
use native.Mathlib.Omega.{arith}
use text.Mathlib.Text.{◌==◌}
use text.Mathlib.TextEquality.{eq_iff}
use text.Mathlib.TextPositions.{eq_refl}
use mathlib.Core.Logic.{◌⊎◌, inl, inr}
use gpass.Prelude.Tests.{if◌then◌else◌, Bool-cases}

abbrev pub Dict {ℓ} : Type ℓ → Type ℓ
Dict V = List (String × V)

module _ {ℓ} {V : Type ℓ} where
  -- `v, ok := m[k]`
  unfoldable pub lookup : String → Dict V → Option V
  lookup key [] = none
  lookup key ((name, held) ∷ rest) = if name == key then some held else lookup key rest

  -- `m[k] = v`
  unfoldable pub insert : String → V → Dict V → Dict V
  insert key new [] = (key, new) ∷ []
  insert key new ((name, held) ∷ rest) =
      if name == key then (key, new) ∷ rest else (name, held) ∷ insert key new rest

  -- the values, in the order of a `range` loop
  unfoldable pub values : Dict V → List V
  values [] = []
  values ((k, v) ∷ m) = v ∷ values m

  pub lookup-insert :
      (key other : String) (new : V) (rest : Dict V)
      → lookup other (insert key new rest) ≡ (if key == other then some new else lookup other rest)
  unfolding lookup insert
  lookup-insert key other new [] = refl
  lookup-insert key other new ((name, held) ∷ rest) = ground (
    arith,
    lookup-insert key other new rest,
    eq_iff name key,
    eq_iff name other,
    eq_iff key other,
  )

  pub lookup-insert_self :
      (key : String) (new : V) (rest : Dict V) → lookup key (insert key new rest) ≡ some new
  lookup-insert_self key new rest = simp (lookup-insert, eq_refl)

  pub lookup-insert_ne :
      (k j : String) (v : V) (m : Dict V) → (k == j) ≡ false → lookup j (insert k v m) ≡ lookup j m
  lookup-insert_ne k j v m h = simp (lookup-insert, h)

  -- What a lookup after an assignment finds: the new value, or what was there.
  pub lookup-insert_cases :
      (k j : String) (v w : V) (m : Dict V)
      → lookup j (insert k v m) ≡ some w
      → ((k ≡ j) × (v ≡ w)) ⊎ (((k == j) ≡ false) × (lookup j m ≡ some w))
  lookup-insert_cases k j v w m h = elim (Bool-cases (k == j)) [
    | inl e ↦ inl ((eq_iff k j).0 e, ground (arith, e, lookup-insert k j v m))
    | inr e ↦ inr (e, ground (arith, e, lookup-insert k j v m))
  ]

  -- An entry stays where a fresh key is assigned.
  pub lookup-insert_fresh :
      (k j : String) (v w : V) (m : Dict V)
      → lookup k m ≡ none
      → lookup j m ≡ some w
      → lookup j (insert k v m) ≡ some w
  lookup-insert_fresh k j v w m fresh h = ground (arith, lookup-insert k j v m, eq_iff k j)

module _ {ℓ κ} {V : Type ℓ} where
  -- every entry satisfies the predicate
  abbrev pub Each : (String → V → Type κ) → Dict V → Type κ
  Each P [] = Unit
  Each P ((k, v) ∷ m) = P k v × Each P m

module _ {ℓ κ} {V : Type ℓ} (P : String → V → Type κ) where
  pub Each-insert : (k : String) (v : V) (m : Dict V) → P k v → Each P m → Each P (insert k v m)
  unfolding insert
  Each-insert k v [] p h = (p, tt)
  Each-insert k v ((j, w) ∷ m) p h = ground (arith, Each-insert k v m p h.1)

  pub Each-lookup : (k : String) (m : Dict V) (v : V) → Each P m → lookup k m ≡ some v → P k v
  unfolding lookup
  Each-lookup k [] v h e = cc
  Each-lookup k ((j, w) ∷ m) v h e = ground (arith, eq_iff j k, Each-lookup k m v h.1)

module _ {ℓ} {V : Type ℓ} where
  -- no key twice
  abbrev pub IsDict : Dict V → Type ℓ
  IsDict [] = Unit
  IsDict ((k, v) ∷ m) = (lookup k m ≡ none) × IsDict m

  pub insert-IsDict : (k : String) (v : V) (m : Dict V) → IsDict m → IsDict (insert k v m)
  unfolding insert lookup
  insert-IsDict k v [] h = (refl, tt)
  insert-IsDict k v ((j, w) ∷ m) (fresh, h) =
      ground (arith, eq_iff j k, eq_iff k j, insert-IsDict k v m h, lookup-insert k j v m)

module _ {ℓ} {V : Type ℓ} where
  -- a `range` loop that updates every entry in place
  unfoldable pub update_all : (V → V) → Dict V → Dict V
  update_all f [] = []
  update_all f ((k, v) ∷ m) = (k, f v) ∷ update_all f m

  pub lookup-update_all :
      (f : V → V) (k : String) (m : Dict V) (v : V)
      → lookup k m ≡ some v
      → lookup k (update_all f m) ≡ some (f v)
  unfolding lookup update_all
  lookup-update_all f k [] v h = cc
  lookup-update_all f k ((j, w) ∷ m) v h = ground (arith, lookup-update_all f k m v)
