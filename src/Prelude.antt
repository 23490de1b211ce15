-- ===== src/Prelude.antt =====
-- The names that every module shares: the libraries', passed on, with the Boolean tests on
-- machine numbers, lists indexed by them, machine words as lists of bits, and error numbers.
mod Tests
mod Lists
mod Words
mod Errors
pub use Tests.*
pub use Lists.*
unfoldable pub use Words.{all_ones}
pub use Words.{Word, test_bit, test_bit-all_ones, test_bit-set}
pub use Errors.*
pub use Prim.Native.Nat.{ℕ, zero, suc, ◌+◌, ◌-◌, ◌*◌, ◌/◌, ◌%◌, ◌^◌, ◌≤◌, ◌<◌}
pub use mathlib.Core.Path.{◌≡◌, refl, sym, ap, ap₂, subst, ◌∙◌, fun_ext}
pub use mathlib.Core.Logic.{◌≢◌, ◌↔◌, ◌⊎◌, inl, inr}
pub use mathlib.Core.Bool.{Bool, true, false, not, ◌&&◌, ◌||◌}
pub use mathlib.Core.Option.{Option, none, some}
pub use mathlib.Core.List.{List, [], ◌∷◌, ◌++◌, map}
pub use native.Mathlib.Omega.{arith}
