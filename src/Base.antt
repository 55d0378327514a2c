-- ===== src/Base.antt =====
-- The names that the other modules share: the libraries', passed on, and those of the children.
mod Tests
mod Lists
mod Words
mod Strings
mod Xor
mod Bytes
pub use Tests.*
pub use Lists.*
pub use Words.*
pub use Xor.*
unfoldable pub use Strings.{c_string, text_eq, format_x, decimal, format_d, sprintf_at}
pub use Strings.{
  Text, codes, text_eq_iff, text_eq_refl, hex_digit, length-format_x, length-format_d,
  sprintf_at-length,
}
unfoldable pub use Bytes.{holds_below}
pub use Bytes.{holds_below_lem}
pub use Prim.Native.Nat.{ℕ, zero, suc, ◌+◌, ◌-◌, ◌*◌, ◌/◌, ◌%◌, ◌^◌, ◌≤◌, ◌<◌, bit_xor}
pub use mathlib.Core.Path.{◌≡◌, refl, sym, ap, subst, ◌∙◌}
pub use mathlib.Core.Logic.{◌≢◌, ◌↔◌, ◌⊎◌, inl, inr}
pub use mathlib.Core.Bool.{Bool, true, false, ◌&&◌, ◌||◌, not}
pub use mathlib.Core.Option.{Option, none, some}
pub use mathlib.Core.List.{List, [], ◌∷◌, ◌++◌, map}
pub use native.Mathlib.Omega.{arith}
