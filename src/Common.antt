-- ===== src/Common.antt =====
-- The names that the other modules share: the libraries', passed on, and those of the children.
mod Tests
mod Lists
mod Int
mod Outcome
mod Maps
mod Digits
pub use Tests.*
pub use Lists.*
pub use Int.{ℤ, pos, negsuc, pos_part, neg_part, ◌≤ℤ◌, ltb_ℤ, int_laws}
unfoldable pub use Int.{◌+ℤ◌, ◌-ℤ◌}
pub use Outcome.*
pub use Digits.{
  length-digits, number_from-digits, take-digits, drop-digits, take-length, drop-length,
}
unfoldable pub use Digits.{digits, number_from}
pub use Maps.{Eq, bytes_beq_iff, nat_eq, bytes_eq, Dict, lookup-insert, lookup-erase}
unfoldable pub use Maps.{bytes_beq, lookup, insert, erase}
pub use Prim.Native.Nat.{ℕ, zero, suc, ◌+◌, ◌-◌, ◌*◌, ◌/◌, ◌%◌, ◌^◌, ◌≤◌, ◌<◌}
pub use mathlib.Core.Path.{◌≡◌, refl, sym, ap, subst, ◌∙◌}
pub use mathlib.Core.Logic.{◌≢◌, ◌↔◌, ◌⊎◌, inl, inr}
pub use mathlib.Core.Bool.{Bool, true, false, ◌&&◌, ◌||◌}
pub use mathlib.Core.Option.{Option, none, some}
pub use mathlib.Core.List.{List, [], ◌∷◌, ◌++◌, map}
pub use native.Mathlib.Omega.{arith}
