-- ===== src/Base.antt =====
-- The names that the other modules share: the libraries', passed on, and those of the children.
mod Tests
mod Lists
mod Strings
mod Int
mod Loops
mod Bind
mod Distinct
pub use Tests.*
pub use Bind.*
pub use Distinct.*
pub use Int.{ℤ, pos, negsuc, int_neg, int_add, int_by_size, int_lt, int_eq, int_eq_refl, int_eq_iff}
pub use Lists.*
pub use Loops.{find_first-some, find_first-none}
unfoldable pub use Loops.{find_first}
pub use Strings.{Text, bytes, strncpy, text_eq_iff, text_eq_refl}
unfoldable pub use Strings.{text_eq}
pub use Prim.Native.Nat.{ℕ, zero, suc, ◌+◌, ◌-◌, ◌*◌, ◌/◌, ◌%◌, ◌^◌, ◌≤◌, ◌<◌}
pub use mathlib.Core.Path.{◌≡◌, refl, sym, ap, ◌∙◌}
pub use mathlib.Core.Logic.{◌≢◌, ◌↔◌, ◌⊎◌, inl, inr}
pub use mathlib.Core.Bool.{Bool, true, false, not, ◌&&◌, ◌||◌}
pub use mathlib.Core.Option.{Option, none, some}
pub use mathlib.Core.List.{List, [], ◌∷◌, ◌++◌, map}
pub use native.Mathlib.Omega.{arith}
unfoldable pub use native.Mathlib.Decide.{dec_lt, ℕ_discrete}
