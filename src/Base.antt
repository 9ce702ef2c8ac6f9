-- ===== src/Base.antt =====
-- The names that all modules share: the libraries', passed on, and those of the children.
mod Tests
mod Lists
mod Search
mod Outcome
mod Words
mod Slices
pub use Tests.*
pub use Lists.*
pub use Words.*
pub use Slices.*
pub use Outcome.{
  Result, ok, err, ◌>>=◌, ◌>>◌, ok_or, map_err, ensure, keep_if, to_option, ok-injective,
  ok_of_bind, ok_of_check, ok_of_ensure, Result-cases,
}
unfoldable pub use Search.{position, find}
pub use Search.{
  FirstAt, position-FirstAt, position-none, position-total, find-get_elem?, find-none, find-only,
}
pub use Prim.Native.Nat.{ℕ, zero, suc, ◌+◌, ◌-◌, ◌*◌, ◌/◌, ◌%◌, ◌^◌, ◌≤◌, ◌<◌, min}
pub use mathlib.Core.Path.{◌≡◌, refl, sym, ap, subst, ◌∙◌}
pub use mathlib.Core.Logic.{◌≢◌, ◌↔◌, ◌⊎◌, inl, inr}
pub use mathlib.Core.Bool.{Bool, true, false, not, ◌&&◌, ◌||◌}
pub use mathlib.Core.Option.{Option, none, some}
pub use mathlib.Core.List.{List, [], ◌∷◌, ◌++◌, map, append-nil, append_assoc}
pub use native.Mathlib.Omega.{arith}
