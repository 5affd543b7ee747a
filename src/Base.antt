-- ===== src/Base.antt =====
-- The names that the other modules share: those of the libraries, passed on, and of the children.
mod Tests
mod Lists
mod Bytes
mod Words
pub use Tests.*
pub use Lists.*
pub use Words.{
  Fits, le_word-le_bytes, length-le_bytes, word32-Fits, word64-Fits, next_word, next_bytes,
  word16-Fits, le_word-take, drop-le_bytes, length-le_bytes-append,
}
unfoldable pub use Words.{le_bytes, le_word}
pub use Bytes.{Str, IsText, is_text, is_text-IsText, bytes_eq_iff, bytes_eq_refl, bytes_eq-false}
unfoldable pub use Bytes.{bytes_eq, memcmp_eq, strncmp_eq}
pub use Prim.Native.Nat.{
  ℕ, zero, suc, ◌+◌, ◌-◌, ◌*◌, ◌/◌, ◌%◌, ◌^◌, ◌≤◌, ◌<◌, bit_and, bit_or, bit_xor,
}
pub use mathlib.Core.Path.{◌≡◌, refl, sym, ap, ◌∙◌, subst}
pub use mathlib.Core.Logic.{◌≢◌, ◌↔◌, ◌⊎◌, inl, inr}
pub use mathlib.Core.Bool.{Bool, true, false, not, ◌&&◌, ◌||◌}
pub use mathlib.Core.Option.{Option, none, some}
pub use mathlib.Core.List.{List, [], ◌∷◌, ◌++◌, map, append-nil, append_assoc}
pub use native.Mathlib.Omega.{arith}
