-- ===== src/Base.antt =====
-- The names that all modules share: library names passed on, Boolean tests, lists measured by
-- native numbers, 64-bit machine words, and the result types of Rust code.
mod Tests
mod Lists
mod Word
mod Maps
mod Results
mod Int
pub use Tests.*
pub use Lists.*
pub use Maps.*
pub use Word.*
pub use Results.*
pub use Int.*
pub use Prim.Native.Nat.{ℕ, zero, suc, ◌+◌, ◌-◌, ◌*◌, ◌/◌, ◌%◌, ◌^◌, ◌≤◌, ◌<◌}
pub use Prim.Native.String.{String}
pub use mathlib.Core.Path.{◌≡◌, refl, sym, subst, fun_ext, ap, ◌∙◌}
pub use mathlib.Core.Logic.{◌≢◌, ◌↔◌, ◌⊎◌, inl, inr}
pub use mathlib.Core.Bool.{Bool, true, false, not, ◌&&◌, ◌||◌}
pub use mathlib.Core.Option.{Option, none, some}
pub use mathlib.Core.List.{List, [], ◌∷◌, ◌++◌, map}
pub use native.Mathlib.Omega.{arith}
