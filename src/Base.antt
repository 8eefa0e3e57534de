-- ===== src/Base.antt =====
-- Shared by every component: names of the libraries, tests on native numbers, lists with native
-- lengths, results of code that throws, and the numbers that C++ calls size_t and int32_t.
mod Tests
mod Lists
mod Members
mod Every
mod Maps
mod Results
mod Int
pub use Tests.*
unfoldable pub use Lists.*
unfoldable pub use Members.*
pub use Every.*
unfoldable pub use Maps.*
pub use Results.*
pub use Int.*
pub use Prim.Native.Nat.{ℕ, zero, suc, ◌+◌, ◌-◌, ◌*◌, ◌/◌, ◌%◌, ◌^◌, ◌≤◌, ◌<◌}
pub use mathlib.Core.Path.{◌≡◌, refl, sym, ap, subst, ◌∙◌}
pub use mathlib.Core.Logic.{◌≢◌, ◌↔◌, ◌⊎◌, inl, inr}
pub use mathlib.Core.Bool.{Bool, true, false, not, ◌&&◌, ◌||◌}
unfoldable pub use mathlib.Core.Bool.{xor}
pub use mathlib.Core.Option.{Option, none, some}
pub use mathlib.Core.List.{List, [], ◌∷◌, ◌++◌, map}
pub use native.Mathlib.Omega.{arith}
