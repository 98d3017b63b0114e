-- ===== src/Prelude/Tallies.antt =====
-- How many entries of a map pass a test, and how an assignment changes that.
use Prim.Native.Nat.{ℕ, ◌+◌, ◌≤◌}
use Prim.Native.String.{String}
use mathlib.Core.Path.{◌≡◌, refl}
use mathlib.Core.Bool.{Bool, false}
use mathlib.Core.List.{List, [], ◌∷◌}
use mathlib.Core.Option.{none, some}
use native.Mathlib.Omega.{arith}
use gpass.Prelude.Tests.{if◌then◌else◌}
use gpass.Prelude.Lists.{length, select, find_first, any_of}
use gpass.Prelude.Maps.{Dict, lookup, insert, values}

module _ {ℓ} {A : Type ℓ} (p : A → Bool) where
  pub any_of-false : (xs : List A) → any_of p xs ≡ false → length (select p xs) ≡ 0
  unfolding any_of select
  any_of-false [] h = refl
  any_of-false (x ∷ xs) h = ground (arith, any_of-false xs)

  pub find_first-none : (xs : List A) → find_first p xs ≡ none → length (select p xs) ≡ 0
  unfolding find_first select
  find_first-none [] h = refl
  find_first-none (x ∷ xs) h = ground (arith, find_first-none xs)

  pub find_first-none_of_zero : (xs : List A) → length (select p xs) ≡ 0 → find_first p xs ≡ none
  unfolding find_first select
  find_first-none_of_zero [] h = refl
  find_first-none_of_zero (x ∷ xs) h = ground (arith, find_first-none_of_zero xs)

module _ {ℓ} {V : Type ℓ} (p : V → Bool) where
  -- the entries whose value passes the test
  unfoldable pub tally : Dict V → ℕ
  tally m = length (select p (values m))

  abbrev pub weight : V → ℕ
  weight v = if p v then 1 else 0

  pub tally-insert_fresh :
      (k : String) (v : V) (m : Dict V)
      → lookup k m ≡ none
      → tally (insert k v m) ≡ tally m + weight v
  unfolding tally lookup insert values select
  tally-insert_fresh k v [] h = ground arith
  tally-insert_fresh k v ((j, w) ∷ m) h = ground (arith, tally-insert_fresh k v m)

  pub tally-insert_held :
      (k : String) (v w : V) (m : Dict V)
      → lookup k m ≡ some w
      → tally (insert k v m) + weight w ≡ tally m + weight v
  unfolding tally lookup insert values select
  tally-insert_held k v w [] h = absurd (ground arith)
  tally-insert_held k v w ((j, u) ∷ m) h = ground (arith, tally-insert_held k v w m)

  pub tally-lookup : (k : String) (v : V) (m : Dict V) → lookup k m ≡ some v → weight v ≤ tally m
  unfolding tally lookup values select
  tally-lookup k v [] h = absurd (ground arith)
  tally-lookup k v ((j, u) ∷ m) h = ground (arith, tally-lookup k v m)
