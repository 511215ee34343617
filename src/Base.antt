-- ===== src/Base.antt =====
-- The names that the other modules share: the libraries', passed on, and those of the children.
mod Tests
mod Lists
pub mod Order
pub mod BTreeMap
pub mod Collections
pub mod SkipMap
pub mod Bincode
pub use Tests.*
pub use Collections.{Crates}
pub use Bincode.{Decoded, got, eof, broken, Codec, IsTorn, encode-nonempty, encode_all-append}
unfoldable pub use Bincode.{encode_all}
unfoldable pub use Lists.*
pub use Order.{Ord, nat_ord, bytes_ord, Bytes, eqb, eqb_iff, eqb_refl}
unfoldable pub use Order.{cmp_bytes}
pub use Prim.Native.Nat.{
  ℕ, zero, suc, ◌+◌, ◌-◌, ◌*◌, ◌/◌, ◌%◌, ◌^◌, ◌≤◌, ◌<◌, min, max, compare, Ordering,
}
pub use mathlib.Core.Path.{◌≡◌, refl, sym, ap, ◌∙◌, subst}
pub use mathlib.Core.Logic.{◌≢◌, ◌↔◌, ◌⊎◌, inl, inr}
pub use mathlib.Core.Bool.{Bool, true, false, not, ◌&&◌, ◌||◌}
pub use mathlib.Core.Option.{Option, none, some}
pub use mathlib.Core.List.{List, [], ◌∷◌, ◌++◌, map, reverse}
pub use native.Mathlib.Omega.{arith}
