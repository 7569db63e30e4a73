-- ===== src/Prelude.antt =====
-- The names that every module shares: the libraries', passed on, and those of the children.
-- `Tests` has the Boolean tests and `if`, `Lists` what Rust's iterators do, `Texts` the methods of
-- `str`, `Results` Rust's `Result`.
mod Tests
mod Lists
mod Texts
pub mod Splits
mod Results
pub mod Sorting
pub mod Maps
pub mod TextOrder
pub mod Tasks
pub mod Int
pub mod Updates
pub mod Parsing
pub mod Anyhow
pub use Tests.*
pub use Lists.*
unfoldable pub use Texts.*
pub use Results.*
pub use Prim.Native.Nat.{ℕ, zero, suc, ◌+◌, ◌-◌, ◌*◌, ◌/◌, ◌%◌, ◌^◌, ◌≤◌, ◌<◌}
pub use Prim.Native.String.{String}
pub use mathlib.Core.Path.{◌≡◌, refl, sym, ap, ◌∙◌, subst}
pub use mathlib.Core.Logic.{◌≢◌, ◌↔◌, ◌⊎◌, inl, inr}
pub use mathlib.Core.Bool.{Bool, true, false, not, ◌&&◌, ◌||◌}
pub use mathlib.Core.Option.{Option, none, some}
pub use mathlib.Core.List.{List, [], ◌∷◌, ◌++◌, map, reverse}
pub use native.Mathlib.Omega.{arith}
pub use text.Mathlib.Text.{◌==◌}
pub use text.Mathlib.TextEquality.{eq_iff}
pub use text.Mathlib.TextPositions.{eq_refl}
