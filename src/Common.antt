-- ===== src/Common.antt =====
-- What the other modules share: the libraries' names, passed on, Boolean tests on numbers, lists
-- measured by native numbers, and the integer and duration arithmetic of Rust's standard library.
mod Tests
mod Lists
mod Search
pub mod Words
pub mod Result
pub mod Map
pub mod Text
pub mod Utf8
pub mod Decimal
pub mod Equality
pub use Tests.{
  ltb, leb, ◌==◌, if◌then◌else◌, ltb→lt, lt→ltb, ltb_ge, leb→le, le→leb, leb_gt, leb-false, ==_iff,
  Bool-cases, Option-cases, test-passes,
}
unfoldable pub use Tests.{passes}
pub use Search.*
pub use Lists.{length, get_elem?, length-append, All}
unfoldable pub use Lists.{find, filter, any}
pub use Prim.Native.Nat.{ℕ, zero, suc, ◌+◌, ◌-◌, ◌*◌, ◌/◌, ◌%◌, ◌^◌, ◌≤◌, ◌<◌, min, max}
pub use mathlib.Core.Path.{◌≡◌, refl, sym, ap, subst, subst₂, ◌∙◌}
pub use mathlib.Core.Logic.{◌≢◌, ◌↔◌, ◌⊎◌, inl, inr}
pub use mathlib.Core.Bool.{Bool, true, false, not, ◌&&◌, ◌||◌}
pub use mathlib.Core.Option.{Option, none, some}
pub use mathlib.Core.List.{List, [], ◌∷◌, ◌++◌, map}
pub use native.Mathlib.Omega.{arith}
