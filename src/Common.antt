-- ===== src/Common.antt =====
-- Names that every component shares: the libraries', passed on, Boolean tests, lists and words.
mod Tests
mod Lists
pub mod Options
pub mod Bits
pub use Tests.*
pub use Lists.*
pub use Prim.Native.Nat.{ℕ, zero, suc, ◌+◌, ◌-◌, ◌*◌, ◌/◌, ◌%◌, ◌^◌, ◌≤◌, ◌<◌, bit_and, bit_or}
pub use mathlib.Core.Path.{◌≡◌, refl, sym, ap, ◌∙◌}
pub use mathlib.Core.Logic.{◌≢◌, ◌↔◌, ◌⊎◌, inl, inr}
pub use mathlib.Core.Bool.{Bool, true, false, not, ◌&&◌, ◌||◌}
pub use mathlib.Core.Option.{Option, none, some}
pub use mathlib.Core.List.{List, [], ◌∷◌, ◌++◌, append-nil, append_assoc}
pub use native.Mathlib.Omega.{arith}
use Prim.Native.Nat.{pred}

-- The range of a `uint64_t`.
abbrev pub u64 : ℕ
u64 = 2 ^ 64

abbrev pub IsU64 : ℕ → Type 0
IsU64 x = x < 2 ^ 64

-- `uint64_t` addition, subtraction and multiplication, which wrap.
abbrev pub add64 : ℕ → ℕ → ℕ
add64 a b = (a + b) % 2 ^ 64

abbrev pub sub64 : ℕ → ℕ → ℕ
sub64 a b = (a + 2 ^ 64 - b) % 2 ^ 64

abbrev pub mul64 : ℕ → ℕ → ℕ
mul64 a b = a * b % 2 ^ 64

-- The codes of errno.h.
pub data Err : Type 0 where
  success not_implemented bad_format internal_error conflict closed : Err
