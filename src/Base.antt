-- ===== src/Base.antt =====
-- The names that the other modules share: the libraries', passed on, and those of the children.
mod Tests
mod Lists
mod Text
mod Assoc
mod Members
mod Maybe
pub use Tests.*
pub use Lists.*
pub use Text.{
  text_leb, truthy-append, truthy-concat, truthy-join, same, truthy, concat, join, elem, has_char,
  after_last, rstrip, lstrip, starts_with,
}
unfoldable pub use Text.{is_space, strip, decimal, contains}
pub use Members.{elem_of_In, In-of_elem, all_of_In}
pub use Maybe.{◌>>=◌}
pub use Assoc.{Dict, same_comm, lookup-update, lookup-append}
unfoldable pub use Assoc.{lookup, update, get_or_else}
pub use Prim.Native.Nat.{ℕ, zero, suc, ◌+◌, ◌-◌, ◌*◌, ◌/◌, ◌%◌, ◌≤◌, ◌<◌}
pub use Prim.Native.String.{String}
pub use mathlib.Core.Path.{◌≡◌, refl, sym, ap, ◌∙◌, subst}
pub use mathlib.Core.Logic.{◌≢◌, ◌↔◌, ◌⊎◌, inl, inr}
pub use mathlib.Core.Bool.{Bool, true, false, not, ◌&&◌, ◌||◌}
pub use mathlib.Core.Option.{Option, none, some}
pub use mathlib.Core.List.{List, [], ◌∷◌, ◌++◌, map}
pub use native.Mathlib.Omega.{arith}
pub use text.Mathlib.TextEquality.{eq_iff}
