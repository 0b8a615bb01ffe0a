-- ===== src/Prelude.antt =====
-- The names that the other modules share: the libraries' names, passed on, and those of the children.
mod Tests
mod Lists
mod Sets
mod Texts
mod Decimal
mod Digits
mod Updates
pub use Tests.*
pub use Lists.*
pub use Sets.*
pub use Digits.{
  value-decimal, IsDigit, value, value_from, pow10, decimal-padded, All-append, split-part,
  split-last,
}
unfoldable pub use Digits.{pad_start, split}
pub use Updates.*
pub use Texts.{codes, codes_eq, codes_eq_iff, codes-injective}
unfoldable pub use Decimal.{decimal}
unfoldable pub use Texts.{trim, trim_start, lower}
pub use Prim.Native.Nat.{ℕ, zero, suc, ◌+◌, ◌-◌, ◌*◌, ◌/◌, ◌%◌, ◌^◌, ◌≤◌, ◌<◌, max, min}
pub use Prim.Native.String.{String}
pub use text.Mathlib.Text.{◌==◌ as str_eq}
pub use text.Mathlib.TextEquality.{eq_iff}
pub use mathlib.Core.Path.{◌≡◌, refl, sym, ap, subst, ◌∙◌}
pub use mathlib.Core.Logic.{◌≢◌, ◌↔◌, ◌⊎◌, inl, inr, ite}
pub use mathlib.Core.Bool.{Bool, true, false, not, ◌&&◌, ◌||◌}
pub use mathlib.Core.Option.{Option, none, some}
pub use mathlib.Core.List.{List, [], ◌∷◌, ◌++◌, map, reverse, append-nil, append_assoc}
pub use native.Mathlib.Omega.{arith}
