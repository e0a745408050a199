-- ===== src/Base.antt =====
-- The names that the other modules share: the libraries' names passed on, and those of the children.
mod Tests
mod Lists
mod Texts
mod Effects
pub mod Fallible
pub mod Int
pub use Tests.*
pub use Lists.*
unfoldable pub use Lists.{any, find, count_if, retain, map_opt, flatten}
pub use Texts.*
unfoldable pub use Texts.{
  text_eq, has_text, lookup, starts_with, split_at, split, without_last, without_cr, lines,
  trim_start, trim_end, trim_end_matches, trim_start_matches, strip_last, split_once_at,
  strip_prefix, strip_suffix, digits_from, decimal_from,
}
pub use Effects.*
pub use Prim.Native.Nat.{
  bit_and, bit_or, ℕ, zero, suc, ◌+◌, ◌-◌, ◌*◌, ◌/◌, ◌%◌, ◌^◌, ◌≤◌, ◌<◌, min, max,
}
pub use Prim.Native.String.{String}
pub use mathlib.Core.Path.{◌≡◌, refl, sym, ap, ◌∙◌, subst}
pub use mathlib.Core.Logic.{◌≢◌, ◌↔◌, ◌⊎◌, inl, inr}
pub use mathlib.Core.Bool.{Bool, true, false, not, ◌&&◌, ◌||◌}
pub use mathlib.Core.Option.{Option, none, some}
pub use mathlib.Core.List.{List, [], ◌∷◌, ◌++◌, map}
pub use native.Mathlib.Omega.{arith}
