-- ===== src/Common.antt =====
-- The names that the other modules share: the libraries', passed on, and those of the children.
-- A Python `str` is a list of code points and a `bytes` a list of numbers below 256.
mod Tests
pub mod Int
pub mod Str
pub mod Sort
pub mod Bits
mod Lists
mod Texts
mod Induction
mod Fallible
pub use Tests.*
pub use Lists.*
pub use Texts.*
pub use Prim.Native.Nat.{ℕ, zero, suc, ◌+◌, ◌-◌, ◌*◌, ◌/◌, ◌%◌, ◌^◌, ◌≤◌, ◌<◌, min}
pub use Prim.Native.Nat.{bit_and, bit_or}
pub use Prim.Native.String.{String}
pub use mathlib.Core.Path.{◌≡◌, refl, sym, ap, ◌∙◌}
pub use mathlib.Core.Logic.{◌≢◌, ◌↔◌, ◌⊎◌, inl, inr}
pub use mathlib.Core.Bool.{Bool, true, false, not, ◌&&◌, ◌||◌}
pub use mathlib.Core.Option.{Option, none, some}
pub use mathlib.Core.List.{List, [], ◌∷◌, ◌++◌, map, append-nil, append_assoc}
pub use native.Mathlib.Omega.{arith}
pub use mathlib.Core.Logic.{dite, dif_pos, dif_neg}
pub use mathlib.Core.List.{reverse, reverse-append}
pub use mathlib.Core.WellFounded.{Acc}
unfoldable pub use native.Mathlib.Decide.{dec_lt}
unfoldable pub use Induction.{lt_wf}
pub use Fallible.*
