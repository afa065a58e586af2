-- ===== src/Prelude.antt =====
-- The names that the other modules share: the libraries', passed on, and those of the children.
-- No source file is modelled here.
mod Tests
mod Lists
mod Search
mod Equality
mod Strings
pub mod Dict
pub mod Int
pub mod Decimal
pub mod Result
pub use Tests.*
pub use Lists.*
pub use Search.*
pub use Equality.*
pub use Strings.*
pub use Prim.Native.Nat.{ℕ, zero, suc, ◌+◌, ◌-◌, ◌*◌, ◌/◌, ◌%◌, ◌^◌, ◌≤◌, ◌<◌, min}
pub use mathlib.Core.Path.{◌≡◌, refl, sym, ap, ◌∙◌}
pub use mathlib.Core.Logic.{◌≢◌, ◌↔◌, ◌⊎◌, inl, inr}
pub use mathlib.Core.Bool.{Bool, true, false, not, ◌&&◌, ◌||◌}
pub use mathlib.Core.Option.{Option, none, some}
pub use mathlib.Core.List.{
  List, [], ◌∷◌, ◌++◌, map, reverse, reverse_aux, append-nil, append_assoc, reverse-append,
  reverse-reverse,
}
pub use native.Mathlib.Omega.{arith}
