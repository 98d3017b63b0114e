-- ===== src/Prelude/Perms.antt =====
-- Lists in another order.
use mathlib.Core.Path.{◌≡◌, refl, ap, ◌∙◌}
use mathlib.Core.Logic.{∥∥₁_elim}
use mathlib.Core.Bool.{Bool, Bool-set}
use mathlib.Core.List.{List, Perm, Permᴰ}
use native.Mathlib.Omega.{arith}
use gpass.Prelude.Lists.{any_of}

module _ {ℓ} {A : Type ℓ} (p : A → Bool) where
  any_of-Permᴰ : {xs ys : List A} → Permᴰ xs ys → any_of p xs ≡ any_of p ys
  unfolding any_of
  any_of-Permᴰ Permᴰ.nil = refl
  any_of-Permᴰ (Permᴰ.cons e r) = ground (arith, any_of-Permᴰ r, ap p e)
  any_of-Permᴰ (Permᴰ.swap e f) = ground (arith, ap p e, ap p f)
  any_of-Permᴰ (Permᴰ.trans r q) = any_of-Permᴰ r ∙ any_of-Permᴰ q

  -- Whether a test holds somewhere does not hang on the order.
  pub any_of-Perm : {xs ys : List A} → Perm xs ys → any_of p xs ≡ any_of p ys
  any_of-Perm perm = ∥∥₁_elim perm (Bool-set _ _) any_of-Permᴰ
