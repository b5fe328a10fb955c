-- ===== src/Base.antt =====
-- The names that the other modules share: the libraries', passed on, and those of the children.
mod Tests
mod Lists
mod Maps
mod Table
mod Text
mod Sort
mod Counting
mod Splits
mod Interleave
unfoldable pub use Tests.*
pub use Lists.*
pub use Maps.*
pub use Table.*
unfoldable pub use Text.*
unfoldable pub use Sort.*
pub use Counting.*
pub use Splits.*
unfoldable pub use Interleave.*
pub use Prim.Native.Nat.{ℕ, zero, suc, ◌+◌, ◌-◌, ◌*◌, ◌/◌, ◌%◌, ◌^◌, ◌≤◌, ◌<◌, min, max}
pub use Prim.Native.String.{String}
pub use mathlib.Core.Path.{◌≡◌, refl, sym, ap, subst, ◌∙◌}
pub use mathlib.Core.Logic.{◌≢◌, ◌↔◌, ◌⊎◌, inl, inr}
pub use mathlib.Core.Bool.{Bool, true, false, not, ◌&&◌, ◌||◌}
pub use mathlib.Core.Option.{Option, none, some, map as map_some}
pub use mathlib.Core.List.{List, [], ◌∷◌, ◌++◌, map}
pub use native.Mathlib.Omega.{arith}
unfoldable pub use native.Mathlib.Decide.{dec_lt}
pub use native.Mathlib.Nat.{mod-eq_of_lt, mod-eq-sub-mod}
pub use native.Mathlib.Numerals.{add-one}
pub use mathlib.Core.List.{append-nil, append_assoc}
