-- ===== src/Base.antt =====
-- The names that the other modules share: numbers, lists, texts, results and their lemmas.
mod Tests
mod Lists
mod Strings
mod Outcome
mod FilePath
pub mod Decimal
pub mod Dict
pub mod Utf8
pub mod Io
pub mod Retry
pub use Tests.*
pub use Lists.*
unfoldable pub use Strings.*
unfoldable pub use Outcome.*
unfoldable pub use FilePath.*
pub use Prim.Native.Nat.{ℕ, zero, suc, ◌+◌, ◌-◌, ◌*◌, ◌/◌, ◌%◌, ◌^◌, ◌≤◌, ◌<◌}
pub use Prim.Native.String.{String}
pub use mathlib.Core.Path.{◌≡◌, refl, sym, ap, ◌∙◌}
pub use mathlib.Core.Logic.{◌≢◌, ◌↔◌, ◌⊎◌, inl, inr}
pub use mathlib.Core.Bool.{Bool, true, false, not, ◌&&◌, ◌||◌}
pub use mathlib.Core.Option.{Option, none, some}
pub use mathlib.Core.List.{List, [], ◌∷◌, ◌++◌, map, append-nil, append_assoc}
pub use native.Mathlib.Omega.{arith}
