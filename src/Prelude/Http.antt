-- ===== src/Prelude/Http.antt =====
-- What an HTTP handler writes: the status code with the body, or an error body.
use Prim.Native.Nat.{ℕ}
use Prim.Native.String.{String}
use mathlib.Core.Bool.{Bool, true, false}

pub data Reply (A : Type 0) : Type 0 where
  -- `writeJSON(w, status, body)`
  reply : ℕ → A → Reply A
  -- `writeError(w, status, code, message)`
  fault : ℕ → String → String → Reply A

abbrev pub is_fault : {A : Type 0} → Reply A → Bool
is_fault (reply _ _) = false
is_fault (fault _ _ _) = true
