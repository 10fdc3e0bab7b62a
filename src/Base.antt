-- ===== src/Base.antt =====
-- What every module shares: the libraries' names passed on, and the helpers of the children.
mod Tests
pub mod Lists
pub mod Eq
pub mod Sets
pub mod Dict
pub mod Text
pub mod Items
pub mod Ints
pub mod Visible
pub mod Codes
pub mod Decimal
pub mod Action
pub mod Join
pub mod Sort
pub mod Result
pub use Tests.*
pub use Prim.Native.Nat.{ℕ, zero, suc, ◌+◌, ◌-◌, ◌*◌, ◌/◌, ◌%◌, ◌^◌, ◌≤◌, ◌<◌}
pub use Prim.Native.String.{String}
pub use mathlib.Core.Path.{◌≡◌, refl, sym, ap, subst, ◌∙◌}
pub use mathlib.Core.Logic.{◌≢◌, ◌↔◌, ◌⊎◌, inl, inr}
pub use mathlib.Core.Bool.{Bool, true, false, not, ◌&&◌, ◌||◌}
pub use mathlib.Core.Option.{Option, none, some}
pub use mathlib.Core.List.{List, [], ◌∷◌, ◌++◌, map}
pub use native.Mathlib.Omega.{arith}
