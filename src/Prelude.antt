-- ===== src/Prelude.antt =====
-- The names that the other modules share: the libraries', passed on, and those of two children.
mod Tests
mod Texts
mod Rows
mod Columns
mod Searches
mod Keyed
mod Lookups
mod Decimal
pub use Tests.*
pub use Texts.{
  NoSpace, strip_plain, split_once-append, split-append, first_part-append, split_plain, split_two,
  is_empty-append,
}
unfoldable pub use Texts.{
  is_empty, is_space, left_strip, right_strip, strip, has_char, split_once, split, first_part,
}
pub use Columns.*
pub use Searches.*
pub use Keyed.*
pub use Lookups.*
unfoldable pub use Decimal.{digit, digits, str_of}
pub use Rows.{exists-add_row, find_first-passes, find_first-add_row_new, find_first-add_row_old}
unfoldable pub use Rows.{find_first, exists, add_row, update_where, remove_where}
pub use Prim.Native.Nat.{ℕ, zero, suc, ◌+◌, ◌-◌, ◌*◌, ◌/◌, ◌%◌, ◌≤◌, ◌<◌}
pub use Prim.Native.String.{String, ◌++◌}
pub use mathlib.Core.Path.{◌≡◌, refl, sym, ap, ◌∙◌}
pub use mathlib.Core.Logic.{◌≢◌, ◌↔◌, ◌⊎◌, inl, inr}
pub use mathlib.Core.Bool.{Bool, true, false, not, ◌&&◌, ◌||◌}
pub use mathlib.Core.Option.{Option, none, some}
pub use mathlib.Core.List.{List, [], ◌∷◌, map}
pub use native.Mathlib.Omega.{arith}
pub use text.Mathlib.Text.{◌==◌ as str_eq}
pub use text.Mathlib.TextEquality.{eq_iff}
pub use text.Mathlib.TextPositions.{eq_refl}
