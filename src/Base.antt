-- ===== src/Base.antt =====
-- Names shared by every module: the libraries', passed on, and those of the children: Boolean
-- tests, lists, texts and the decimal print of a number.
mod Tests
mod Lists
mod Texts
mod Decimal
mod Strip
mod Sort
mod Pages
mod Members
mod Integers
mod Unique
pub use Tests.*
pub use Lists.*
unfoldable pub use Texts.*
pub use Decimal.*
unfoldable pub use Strip.*
unfoldable pub use Sort.*
pub use Unique.*
pub use Pages.*
pub use Integers.*
pub use Members.*
pub use Prim.Native.Nat.{ℕ, zero, suc, ◌+◌, ◌-◌, ◌*◌, ◌/◌, ◌%◌, ◌^◌, ◌≤◌, ◌<◌, min, max}
pub use mathlib.Core.Path.{◌≡◌, refl, sym, ap, ◌∙◌, subst}
pub use mathlib.Core.Logic.{◌≢◌, ◌↔◌, ◌⊎◌, inl, inr}
pub use mathlib.Core.Bool.{Bool, true, false, not, ◌&&◌, ◌||◌}
pub use mathlib.Core.Option.{Option, none, some}
pub use mathlib.Core.List.{List, [], ◌∷◌, ◌++◌, map, foldl, append_assoc, append-nil}
pub use native.Mathlib.Omega.{arith}
