-- ===== src/Header/Numbers.antt =====
-- Packet numbers of src/format/header.h, written and read back.
use openquic.Common.{
  ℕ, ◌-◌, ◌^◌, ◌≤◌, ◌<◌, ◌≡◌, arith, List, ◌∷◌, ◌++◌, length, ltb, Bool-cases, inl, inr, bit_and,
}
use openquic.Varint.{read_be}
use openquic.Frame.Wire.{ok}
use openquic.Header.{packet_number, number_format_len, number_format}

pub number_len_bounds : (num : ℕ) → (1 ≤ number_format_len num) × (number_format_len num ≤ 4)
unfolding number_format_len
number_len_bounds num = ground arith

pub length-number_format :
    (num : ℕ) → length (number_format num (number_format_len num)) ≡ number_format_len num
unfolding number_format number_format_len
length-number_format num = ground arith

-- A packet number below 2 ^ 32 that quic_packet_number_format writes is read back by
-- quic_packet_number_r, where the first byte tells its length and a byte at least follows it.
pub packet_number-number_format :
    (field num x : ℕ) (rest : List ℕ)
    → num < 2 ^ 32
    → bit_and field 0x03 ≡ number_format_len num - 1
    → packet_number field (number_format num (number_format_len num) ++ x ∷ rest)
      ≡ ok (num, x ∷ rest)
unfolding packet_number number_format number_format_len read_be
packet_number-number_format field num x rest h e = elim (Bool-cases (ltb num 0x100)) [
  | inl a ↦ ground arith
  | inr a ↦ elim (Bool-cases (ltb num 0x10000)) [
    | inl b ↦ ground arith
    | inr b ↦ elim (Bool-cases (ltb num 1000000)) [ inl c ↦ ground arith | inr c ↦ ground arith ]
  ]
]
