-- ===== src/Base.antt =====
-- The names that the other modules share: the libraries', passed on, and those of three children.
mod Tests
mod Lists
mod Order
mod Fallible
pub use Tests.*
pub use Lists.*
unfoldable pub use Order.{cmp_bytes}
pub use Order.{
  Bytes, swap, cmp_bytes_refl, cmp_bytes-eq, cmp_bytes-swap, cmp_bytes_trans, eq_bytes,
  eq_bytes_iff, Ordering-cases,
}
pub use Fallible.{
  Outcome, ok, err, panic, ◌>>=◌, ◌>>◌, map_err, >>=-eq-ok, >>=-returns, Outcome-cases,
  ok-injective,
}
pub use Prim.Native.Nat.{ℕ, zero, suc, ◌+◌, ◌-◌, ◌*◌, ◌/◌, ◌%◌, ◌^◌, ◌≤◌, ◌<◌, Ordering, compare}
pub use mathlib.Core.Path.{◌≡◌, refl, sym, ap, ◌∙◌, subst}
pub use mathlib.Core.Logic.{◌≢◌, ◌↔◌, ◌⊎◌, inl, inr}
pub use mathlib.Core.Bool.{Bool, true, false, not, ◌&&◌, ◌||◌}
pub use mathlib.Core.Option.{Option, none, some}
pub use mathlib.Core.List.{List, [], ◌∷◌, ◌++◌, map, append-nil, append_assoc}
pub use native.Mathlib.Omega.{arith}
