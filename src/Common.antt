-- ===== src/Common.antt =====
-- The names that the other modules share: the libraries', passed on, and those of the children.
mod Tests
mod Lists
pub mod Texts
pub mod Result
pub mod Decimal
pub mod Trim
pub use Tests.*
pub use Lists.{
  length, take, drop, get_elem?, any, append_assoc, append_nil, length-append, length-take,
  length-drop, filter-append, take-append-drop, drop-drop, All, All-append,
}
unfoldable pub use Lists.{filter}
pub use Texts.{text_eq_iff, text_eq_refl, to_lower_idem}
unfoldable pub use Texts.{Text, lower, codes, text_eq, to_lower, starts_with}
pub use Prim.Native.Nat.{ℕ, zero, suc, ◌+◌, ◌-◌, ◌*◌, ◌/◌, ◌%◌, ◌^◌, ◌≤◌, ◌<◌}
pub use Prim.Native.String.{String}
pub use mathlib.Core.Path.{◌≡◌, refl, sym, ap, ◌∙◌}
pub use mathlib.Core.Logic.{◌≢◌, ◌↔◌, ◌⊎◌, inl, inr}
pub use mathlib.Core.Bool.{Bool, true, false, ◌&&◌, ◌||◌, not}
pub use mathlib.Core.Option.{Option, none, some}
pub use mathlib.Core.List.{List, [], ◌∷◌, ◌++◌, map}
pub use native.Mathlib.Omega.{arith}
