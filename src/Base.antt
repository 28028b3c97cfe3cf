-- ===== src/Base.antt =====
-- Names that the development shares: the libraries', passed on, and those of six children.
mod Tests
mod Lists
mod Tables
mod Keys
mod Sorting
mod Stable
pub use Tests.*
pub use Lists.*
pub use Tables.*
pub use Keys.*
pub use Sorting.*
pub use Stable.*
pub use Prim.Native.Nat.{ℕ, zero, suc, ◌+◌, ◌-◌, ◌*◌, ◌/◌, ◌%◌, ◌^◌, ◌≤◌, ◌<◌}
pub use mathlib.Core.Path.{◌≡◌, refl, sym, ap, ◌∙◌, fun_ext}
pub use mathlib.Core.Logic.{◌≢◌, ◌↔◌, ◌⊎◌, inl, inr}
pub use mathlib.Core.Bool.{Bool, true, false, not, ◌&&◌, ◌||◌}
pub use mathlib.Core.Option.{Option, none, some}
pub use mathlib.Core.List.{List, [], ◌∷◌, ◌++◌, map}
pub use native.Mathlib.Omega.{arith}
