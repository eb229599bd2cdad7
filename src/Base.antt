-- ===== src/Base.antt =====
-- Names that every module shares: the libraries' names passed on, Boolean tests, texts, dictionaries
-- and the results of calls that may fail.
mod Tests
mod Effect
mod Lists
pub mod Inversion
pub mod Texts
pub mod Dict
pub mod Paths
pub mod Decimal
pub mod Sort
pub mod Message
pub mod Int
pub use Tests.*
unfoldable pub use Effect.*
pub use Lists.*
pub use Prim.Native.Nat.{ℕ, zero, suc, ◌+◌, ◌-◌, ◌≤◌, ◌<◌}
pub use Prim.Native.String.{String}
pub use mathlib.Core.Path.{◌≡◌, refl, sym, ap, subst, ◌∙◌}
pub use mathlib.Core.Logic.{◌≢◌, ◌↔◌, ◌⊎◌, inl, inr}
pub use mathlib.Core.Bool.{Bool, true, false, not, ◌&&◌, ◌||◌}
pub use mathlib.Core.Option.{Option, none, some}
pub use mathlib.Core.List.{List, [], ◌∷◌, ◌++◌, map}
pub use native.Mathlib.Omega.{arith}
