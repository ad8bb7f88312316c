-- ===== src/Base.antt =====
-- The names that the other modules share: the libraries', passed on, and those of the children.
mod Tests
mod Lists
mod Run
mod Slices
mod Equality
pub mod HashMap
mod Text
pub use Tests.*
pub use Lists.*
pub use Run.{
  Outcome, ok, panic, out_of_fuel, ◌>>=◌, bind-eq-ok, ok-pair, Flow, again, break, follow, Ensures,
  Ensures-bind, Ensures-ok, Ensures-if, Ensures-weaker,
}
unfoldable pub use Run.{run_loop}
pub use Slices.{shift, head?, Free, Found, position_cases, drain-append, drain_outside}
unfoldable pub use Slices.{position, drain, split_at}
pub use Equality.{Eq, nat_eq, equal, equal_iff, list_eq, eq_self}
pub use Text.{codes, is_digit}
unfoldable pub use Text.{slice, slice_from, parse_u32}
pub use Prim.Native.Nat.{ℕ, zero, suc, ◌+◌, ◌-◌, ◌*◌, ◌/◌, ◌%◌, ◌≤◌, ◌<◌}
pub use mathlib.Core.Path.{◌≡◌, refl, sym, ap, ◌∙◌}
pub use mathlib.Core.Logic.{◌≢◌, ◌↔◌, ◌⊎◌, inl, inr}
pub use mathlib.Core.Bool.{Bool, true, false, not, ◌&&◌, ◌||◌}
pub use mathlib.Core.Option.{Option, none, some}
pub use mathlib.Core.List.{List, [], ◌∷◌, ◌++◌, map, map-append, append-nil, append_assoc}
pub use native.Mathlib.Omega.{arith}

-- A `Vec<u8>` or `&[u8]`. The bytes of a Rust `String` are one too: its UTF-8 encoding.
abbrev pub Bytes : Type 0
Bytes = List ℕ
