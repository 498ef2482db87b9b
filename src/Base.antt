-- ===== src/Base.antt =====
-- The names that the other modules share: the libraries', passed on, and those of the children.
mod Tests
mod Lists
mod Filters
mod Units
mod Sort
mod Show
mod Words
pub use Tests.*
pub use Lists.*
pub use Filters.*
pub use Units.*
unfoldable pub use Sort.{sort_by}
pub use Sort.{
  insert, InOrder, with_key, All-sort_by, sort_by-InOrder, with_key-sort_by, InOrder-unique,
  sort_by_unique, InOrder-take, length-sort_by, IsTop, take-sort_by-IsTop,
}
unfoldable pub use Words.{trim, behind, replace_first}
pub use Words.{is_empty, trim_start, trim_end, contains}
unfoldable pub use Show.{show_ℕ, ◌<>◌}
pub use Prim.Native.Nat.{ℕ, zero, suc, ◌+◌, ◌-◌, ◌*◌, ◌/◌, ◌%◌, ◌^◌, ◌≤◌, ◌<◌}
pub use Prim.Native.String.{String}
pub use mathlib.Core.Path.{◌≡◌, refl, sym, ap, ◌∙◌, subst, fun_ext}
pub use mathlib.Core.Logic.{◌≢◌, ◌↔◌, ◌⊎◌, inl, inr}
pub use mathlib.Core.Bool.{Bool, true, false, not, ◌&&◌, ◌||◌}
pub use mathlib.Core.Option.{Option, none, some}
pub use mathlib.Core.List.{List, [], ◌∷◌, ◌++◌, map, append-nil, append_assoc, map-append}
pub use native.Mathlib.Omega.{arith}
pub use text.Mathlib.Text.{◌==◌ as str_eq, starts_with}
pub use text.Mathlib.TextEquality.{eq_iff as str_eq_iff}
