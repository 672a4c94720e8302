-- ===== src/Prelude.antt =====
-- The names that the other modules share: the libraries', passed on, and those of the children.
mod Tests
mod Lists
mod Words
mod Tables
mod Results
mod Maps
mod Sets
mod Strings
mod Equality
mod Loops
mod Earlier
pub use Tests.*
pub use Lists.*
unfoldable pub use Tables.{all_below}
pub use Tables.{all_below_sound}
unfoldable pub use Words.*
pub use Sets.*
pub use Earlier.*
unfoldable pub use Maps.*
unfoldable pub use Strings.*
unfoldable pub use Loops.*
unfoldable pub use Equality.*
pub use Results.*
pub use Prim.Native.Nat.{ℕ, zero, suc, ◌+◌, ◌-◌, ◌*◌, ◌/◌, ◌%◌, ◌^◌, ◌≤◌, ◌<◌, min}
pub use Prim.Native.Nat.{bit_and, bit_or, bit_xor}
pub use Prim.Native.String.{String}
pub use mathlib.Core.Path.{◌≡◌, refl, sym, ap, ◌∙◌}
pub use mathlib.Core.Logic.{◌≢◌, ◌↔◌, ◌⊎◌, inl, inr}
pub use mathlib.Core.Bool.{Bool, true, false, not, ◌&&◌, ◌||◌}
pub use mathlib.Core.Option.{Option, none, some}
pub use mathlib.Core.List.{List, [], ◌∷◌, ◌++◌, map, flat_map, append-nil, append_assoc}
pub use native.Mathlib.Omega.{arith}
