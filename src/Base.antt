-- ===== src/Base.antt =====
-- What the other modules share: names of the libraries, and the helpers of the children.
mod Tests
mod Lists
mod Integers
mod Word
mod Bits
mod Counts
mod Powers
mod Occurrences
pub use Tests.*
pub use Lists.*
pub use Integers.*
pub use Bits.*
pub use Powers.*
pub use Occurrences.*
unfoldable pub use Word.*
unfoldable pub use Counts.*
pub use Prim.Native.Nat.{
  ℕ, zero, suc, ◌+◌, ◌-◌, ◌*◌, ◌/◌, ◌%◌, ◌^◌, ◌≤◌, ◌<◌, min, bit_and, bit_or, bit_xor,
}
pub use mathlib.Core.Path.{◌≡◌, refl, sym, ap, subst, ◌∙◌}
pub use mathlib.Core.Logic.{◌≢◌, ◌↔◌, ◌⊎◌, inl, inr}
pub use mathlib.Core.Bool.{Bool, true, false, ◌&&◌, ◌||◌, not}
pub use mathlib.Core.Option.{Option, none, some}
pub use mathlib.Core.List.{List, [], ◌∷◌, ◌++◌, map}
pub use native.Mathlib.Omega.{arith}
