-- ===== src/Varint/RoundTrip.antt =====
-- Reading back what varint.h writes.
use openquic.Common.{ℕ, ◌+◌, ◌/◌, ◌%◌, ◌^◌, ◌≤◌, ◌<◌, ◌≡◌, arith, bit_or}
use openquic.Common.{List, [], ◌∷◌, ◌++◌, length, suc, leb, Bool-cases, inl, inr}
use openquic.Common.Bits.{top_two_bits, low_six_bits, set_prefix_1, set_prefix_2, set_prefix_3}
use openquic.Varint.{varint_len, varint_r, varint_format_len, be_bytes, varint_bytes}

-- The range of a variable-length integer.
abbrev pub IsVarint : ℕ → Type 0
IsVarint v = v < 2 ^ 62

pub length-varint_bytes : (v : ℕ) → length (varint_bytes v) ≡ varint_format_len v
unfolding varint_bytes
length-varint_bytes v = ground arith

pub format_len_bounds : (v : ℕ) → IsVarint v → (1 ≤ varint_format_len v) × (varint_format_len v ≤ 8)
unfolding varint_format_len
format_len_bounds v h = ground arith

-- The bytes of a varint: the first tells their number, and together they give the value,
-- whatever follows them.
pub record Encodes (v : ℕ) (out : List ℕ) : Type 0 where
  pub first : ℕ
  pub others : List ℕ
  pub shape : out ≡ first ∷ others
  pub announced : varint_len first ≡ suc (length others)
  pub value : (rest : List ℕ) → varint_r first (others ++ rest) ≡ v

varint_bytes_1 : (v : ℕ) → v ≤ 63 → Encodes v (varint_bytes v)
unfolding varint_bytes varint_r
varint_bytes_1 v h = record {
  first = v / 256 ^ 0 % 256;
  others = [];
  shape = ground arith;
  announced = ground (arith, top_two_bits (v / 256 ^ 0 % 256));
  value = λ rest. ground (arith, top_two_bits (v / 256 ^ 0 % 256));
}

varint_bytes_2 : (v : ℕ) → 63 < v → v ≤ 16383 → Encodes v (varint_bytes v)
unfolding varint_bytes varint_r
varint_bytes_2 v l h =
    let b = v / 256 ^ 1 % 256 in
    record {
      first = bit_or (v / 256 ^ 1 % 256) 0x40;
      others = v / 256 ^ 0 % 256 ∷ [];
      shape = ground arith;
      announced = ground (arith, set_prefix_1 b, top_two_bits (b + 64));
      value = λ rest. ground (arith, set_prefix_1 b, top_two_bits (b + 64), low_six_bits (b + 64));
    }

varint_bytes_4 : (v : ℕ) → 16383 < v → v ≤ 1073741823 → Encodes v (varint_bytes v)
unfolding varint_bytes varint_r
varint_bytes_4 v l h =
    let b = v / 256 ^ 3 % 256 in
    record {
      first = bit_or (v / 256 ^ 3 % 256) 0x80;
      others = be_bytes 3 v;
      shape = ground arith;
      announced = ground (arith, set_prefix_2 b, top_two_bits (b + 128));
      value =
          λ rest. ground (arith, set_prefix_2 b, top_two_bits (b + 128), low_six_bits (b + 128));
    }

varint_bytes_8 : (v : ℕ) → 1073741823 < v → IsVarint v → Encodes v (varint_bytes v)
unfolding varint_bytes varint_r
varint_bytes_8 v l h =
    let b = v / 256 ^ 7 % 256 in
    record {
      first = bit_or (v / 256 ^ 7 % 256) 0xc0;
      others = be_bytes 7 v;
      shape = ground arith;
      announced = ground (arith, set_prefix_3 b, top_two_bits (b + 192));
      value =
          λ rest. ground (arith, set_prefix_3 b, top_two_bits (b + 192), low_six_bits (b + 192));
    }

-- For a value below 2 ^ 62, quic_varint_format_r writes bytes from which quic_varint_len and
-- quic_varint_r recover their number and the value, whatever follows.
pub varint_bytes-Encodes : (v : ℕ) → IsVarint v → Encodes v (varint_bytes v)
varint_bytes-Encodes v h = elim (Bool-cases (leb v 63)) [
  | inl a ↦ varint_bytes_1 v (ground arith)
  | inr a ↦ elim (Bool-cases (leb v 16383)) [
    | inl b ↦ varint_bytes_2 v (ground arith) (ground arith)
    | inr b ↦ elim (Bool-cases (leb v 1073741823)) [
      | inl c ↦ varint_bytes_4 v (ground arith) (ground arith)
      | inr c ↦ varint_bytes_8 v (ground arith) h
    ]
  ]
]
