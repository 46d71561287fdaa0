-- ===== src/Prelude.antt =====
-- The names that the other modules share: the libraries', passed on, and those of the children.
-- A Go `string` and a `[]byte` are lists of bytes, a Go map is an association list whose order
-- stands for the order in which the runtime happens to iterate, `int64` and `int32` arithmetic
-- is in Words, a float64 is its IEEE 754 bit pattern.
mod Tests
mod Lists
mod Options
mod ByteString
pub mod Int
pub mod Words
pub mod Dict
pub mod Outcome
pub mod Decimal
pub use Tests.*
pub use Lists.*
pub use Options.*
unfoldable pub use ByteString.*
pub use Prim.Native.Nat.{ℕ, zero, suc, ◌+◌, ◌-◌, ◌*◌, ◌/◌, ◌%◌, ◌^◌, ◌≤◌, ◌<◌}
pub use mathlib.Core.Path.{◌≡◌, refl, sym, ap, ap₂, ◌∙◌, subst, ◌≡⟨◌⟩◌, ◌∎}
pub use mathlib.Core.Logic.{◌≢◌, ◌↔◌, ◌⊎◌, inl, inr}
pub use mathlib.Core.Bool.{Bool, true, false, not, ◌&&◌, ◌||◌}
pub use mathlib.Core.Option.{Option, none, some}
pub use mathlib.Core.List.{List, [], ◌∷◌, ◌++◌, map, append-nil, append_assoc}
pub use native.Mathlib.Omega.{arith}
unfoldable pub use native.Mathlib.Decide.{dec_lt, ℕ_discrete}
