-- ===== src/Base.antt =====
-- The names that the other modules share: the libraries', passed on, and those of the children.
mod Tests
mod Lists
mod Strings
mod Int
mod Decimal
mod Int32
mod Cut
pub use Tests.*
unfoldable pub use Lists.{count_if, keep_if}
pub use Lists.*
unfoldable pub use Strings.{text_eq, cut_prefix, starts_with, contains_text}
pub use Strings.*
unfoldable pub use Int.{◌+ℤ◌, ◌-ℤ◌, ◌*ℤ◌}
pub use Int.*
unfoldable pub use Int32.{wrap32, inc32, ◌-₃₂◌, wrap64, ◌-₆₄◌, clamp64, sub_time}
pub use Int32.*
unfoldable pub use Decimal.{parse_digits, atoi, digits, decimal}
pub use Decimal.*
unfoldable pub use Cut.{is_empty, take, trim_left, trim_right, trim_both, all_if, first_is, last_is}
pub use Cut.*
pub use Prim.Native.Nat.{ℕ, zero, suc, ◌+◌, ◌-◌, ◌*◌, ◌/◌, ◌%◌, ◌≤◌, ◌<◌}
pub use Prim.Native.String.{String}
pub use mathlib.Core.Path.{◌≡◌, refl, sym, ap, subst, ◌∙◌}
pub use mathlib.Core.Logic.{◌≢◌, ◌↔◌, ◌⊎◌, inl, inr}
pub use mathlib.Core.Bool.{Bool, true, false, ◌&&◌, ◌||◌, not}
pub use mathlib.Core.Option.{Option, none, some}
pub use mathlib.Core.List.{List, [], ◌∷◌, ◌++◌, map}
pub use native.Mathlib.Omega.{arith}
