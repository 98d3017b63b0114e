-- ===== src/Prelude.antt =====
-- The names that the modules of the development share: the libraries', passed on, and those of
-- the children.
mod Tests
mod Text
mod Results
mod Lists
mod Maps
mod Perms
mod Tallies
mod Http
mod Ints
pub use Tests.*
unfoldable pub use Text.{codes, same_codes, rune_count, concat, one_of, contains_any}
pub use Text.{
  IsBounded, IsRequired, ne_of_test, eq_of_test, concat-apart, concat-ne, test_of_codes,
  same_codes-eq,
}
pub use Results.*
unfoldable pub use Lists.{length, take, drop, select, find_first, any_of, all_of, All}
pub use Lists.{
  length-append, length-reverse, length-take-le, select-append, find_first-passes, All-append,
}
unfoldable pub use Maps.{Dict, lookup, insert, values, Each, IsDict, update_all}
pub use Maps.{lookup-insert, lookup-insert_self, lookup-insert_ne, lookup-update_all}
pub use Maps.{lookup-insert_cases, lookup-insert_fresh}
pub use Maps.{Each-insert, Each-lookup, insert-IsDict}
pub use Perms.{any_of-Perm}
pub use Tallies.{any_of-false, find_first-none, find_first-none_of_zero, weight}
unfoldable pub use Tallies.{tally}
pub use Tallies.{tally-insert_fresh, tally-insert_held, tally-lookup}
pub use Http.*
pub use Ints.{ℤ, pos, negsuc}
unfoldable pub use Ints.{pos_part, neg_part, ltb_ℤ, of_bits, wrap64, mul64, add_time}
pub use Ints.{mul64_exact}
pub use Prim.Native.Nat.{ℕ, zero, suc, ◌+◌, ◌-◌, ◌*◌, ◌/◌, ◌%◌, ◌^◌, ◌≤◌, ◌<◌}
pub use Prim.Native.String.{String}
pub use mathlib.Core.Path.{◌≡◌, refl, sym, ap, ◌∙◌}
pub use mathlib.Core.Logic.{◌≢◌, ◌↔◌, ◌⊎◌, inl, inr}
pub use mathlib.Core.Bool.{Bool, true, false, not, ◌&&◌, ◌||◌}
pub use mathlib.Core.Option.{Option, none, some, map as map_some}
pub use mathlib.Core.List.{List, [], ◌∷◌, ◌++◌, map}
pub use mathlib.Core.List.{Perm, reverse, reverse-append, reverse-reverse, append_assoc, append-nil}
pub use native.Mathlib.Omega.{arith}
pub use text.Mathlib.Text.{◌==◌}
pub use text.Mathlib.TextEquality.{eq_iff}
pub use text.Mathlib.TextPositions.{eq_refl}
