-- ===== src/Prelude.antt =====
-- The names that the other modules share: the libraries', passed on, and those of the children.
pub mod Tests
pub mod Lists
pub mod Options
pub mod Int
pub mod Memory
pub mod Bits
pub mod Below
pub use Tests.*
pub use Lists.*
pub use Options.{bind, map_some, OnSome, OnSome-map_some, OnSome-map, OnSome-bind, OnSome-if}
pub use Int.*
pub use Memory.{Bytes, byte_at, update, shift, update_self, update_ne, word-lt, word-set_word_self}
unfoldable pub use Memory.{word, set_word}
pub use Prim.Native.Nat.{ℕ, zero, suc, ◌+◌, ◌-◌, ◌*◌, ◌/◌, ◌%◌, ◌^◌, ◌≤◌, ◌<◌, min, max}
pub use Prim.Native.Nat.{bit_and, bit_or}
pub use mathlib.Core.Path.{◌≡◌, refl, sym, ap, ap₂, ◌∙◌}
pub use mathlib.Core.Logic.{◌≢◌, ◌↔◌, ◌⊎◌, inl, inr}
pub use mathlib.Core.Bool.{Bool, true, false, not, ◌&&◌, ◌||◌}
pub use mathlib.Core.Option.{Option, none, some}
pub use mathlib.Core.List.{List, [], ◌∷◌, ◌++◌}
pub use native.Mathlib.Omega.{arith}
