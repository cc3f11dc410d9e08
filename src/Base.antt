-- ===== src/Base.antt =====
-- The names that the other modules share: the libraries', passed on, and those of the children.
mod Tests
mod Lists
mod Text
mod Predicates
mod Counting
pub mod Int
pub mod Dict
pub use Tests.*
pub use Lists.*
pub use Counting.*
pub use Predicates.{All, Any, In, any_iff, Any-mono}
unfoldable pub use Predicates.{any}
pub use Text.{Str, bytes, bytes_eq_iff, bytes_eq_refl, bytes_ne, equal_fold_refl, equal_fold-append}
unfoldable pub use Text.{bytes_eq, lower, equal_fold, split_on, cut_prefix}
pub use Prim.Native.Nat.{ℕ, zero, suc, ◌+◌, ◌-◌, ◌*◌, ◌/◌, ◌%◌, ◌^◌, ◌≤◌, ◌<◌, min, max}
pub use mathlib.Core.Path.{◌≡◌, refl, sym, ap, ◌∙◌, subst, fun_ext}
pub use mathlib.Core.Logic.{◌≢◌, ◌↔◌, ◌⊎◌, inl, inr}
pub use mathlib.Core.Bool.{Bool, true, false, not, ◌&&◌, ◌||◌}
pub use mathlib.Core.Option.{Option, none, some}
pub use mathlib.Core.List.{List, [], ◌∷◌, ◌++◌, map}
pub use native.Mathlib.Omega.{arith}
