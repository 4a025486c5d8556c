-- ===== src/Base.antt =====
-- Names, tests, machine words and sums over thread families that every part shares.
mod Tests
mod Word
mod Family
mod Lists
mod Endings
pub mod Bits
pub use Tests.*
pub use Word.*
unfoldable pub use Family.{sum}
pub use Family.*
unfoldable pub use Lists.{get_elem?, set, replicate, resize}
pub use Lists.*
pub use Endings.*
pub use Prim.Native.Nat.{ℕ, zero, suc, ◌+◌, ◌-◌, ◌*◌, ◌/◌, ◌%◌, ◌^◌, ◌≤◌, ◌<◌}
pub use mathlib.Core.Path.{◌≡◌, refl, sym, ap, ◌∙◌}
pub use mathlib.Core.Logic.{◌≢◌, ◌↔◌, ◌⊎◌, inl, inr}
pub use mathlib.Core.Bool.{Bool, true, false, ◌&&◌, ◌||◌, not}
pub use mathlib.Core.Option.{Option, none, some}
pub use mathlib.Core.List.{List, [], ◌∷◌, ◌++◌}
pub use native.Mathlib.Omega.{arith}
