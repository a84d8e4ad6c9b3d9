-- ===== src/Common/Bits.antt =====
-- Masks on one byte as arithmetic, by tables of at most 256 entries.
use Prim.Native.Nat.{ℕ, zero, suc, ◌+◌, ◌*◌, ◌/◌, ◌%◌, ◌<◌, bit_and, bit_or}
use mathlib.Core.Path.{◌≡◌, refl}
use mathlib.Core.Bool.{Bool, true, false}
use mathlib.Core.Logic.{ite}
use native.Mathlib.Decide.{ℕ_discrete}
use native.Mathlib.Omega.{arith}

module _ (f g : ℕ → ℕ) where
  agree_below : ℕ → Bool
  unfolding ℕ_discrete
  agree_below zero = true
  agree_below (suc n) = ite (ℕ_discrete (f n) (g n)) (agree_below n) false

  agree_below→eq : (n : ℕ) → agree_below n ≡ true → (i : ℕ) → i < n → f i ≡ g i
  unfolding agree_below
  agree_below→eq zero e i h = absurd (omega arith)
  agree_below→eq (suc n) e i h = ground (arith, agree_below→eq n (ground arith) i)

pub top_two_bits : (b : ℕ) → b < 256 → bit_and b 0xc0 ≡ b / 64 * 64
unfolding agree_below
top_two_bits = agree_below→eq _ _ 256 refl

pub low_six_bits : (b : ℕ) → b < 256 → bit_and b 0x3f ≡ b % 64
unfolding agree_below
low_six_bits = agree_below→eq _ _ 256 refl

pub set_prefix_1 : (b : ℕ) → b < 64 → bit_or b 0x40 ≡ b + 64
unfolding agree_below
set_prefix_1 = agree_below→eq _ _ 64 refl

pub set_prefix_2 : (b : ℕ) → b < 64 → bit_or b 0x80 ≡ b + 128
unfolding agree_below
set_prefix_2 = agree_below→eq _ _ 64 refl

pub set_prefix_3 : (b : ℕ) → b < 64 → bit_or b 0xc0 ≡ b + 192
unfolding agree_below
set_prefix_3 = agree_below→eq _ _ 64 refl

-- The length of a packet number in the first byte of a header, which has another type above it.
pub low_two_bits_initial : (i : ℕ) → i < 4 → bit_and (bit_or 0xc0 i) 0x03 ≡ i
unfolding agree_below
low_two_bits_initial = agree_below→eq _ _ 4 refl

pub low_two_bits_handshake : (i : ℕ) → i < 4 → bit_and (bit_or 0xe0 i) 0x03 ≡ i
unfolding agree_below
low_two_bits_handshake = agree_below→eq _ _ 4 refl

pub low_two_bits_short : (i : ℕ) → i < 4 → bit_and (bit_or 0x40 i) 0x03 ≡ i
unfolding agree_below
low_two_bits_short = agree_below→eq _ _ 4 refl
