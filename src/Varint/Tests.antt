-- ===== src/Varint/Tests.antt =====
-- Runs of utils/varint.h, and a witness.
use openquic.Common.{[], ◌∷◌, ◌≡◌, refl, arith}
use openquic.Varint.{varint_bytes, varint_format_len}
use openquic.Varint.RoundTrip.{Encodes, varint_bytes-Encodes}

varint_bytes_one : varint_bytes 37 ≡ 0x25 ∷ []
unfolding varint_bytes
varint_bytes_one = refl

varint_bytes_two : varint_bytes 15293 ≡ 0x7b ∷ 0xbd ∷ []
unfolding varint_bytes
varint_bytes_two = refl

varint_bytes_eight :
    varint_bytes 151288809941952652 ≡ 0xc2 ∷ 0x19 ∷ 0x7c ∷ 0x5e ∷ 0xff ∷ 0x14 ∷ 0xe8 ∷ 0x8c ∷ []
unfolding varint_bytes
varint_bytes_eight = refl

varint_format_len_too_large : varint_format_len 4611686018427387904 ≡ 0
unfolding varint_format_len
varint_format_len_too_large = refl

varint_bytes-Encodes_example : Encodes 494878333 (varint_bytes 494878333)
varint_bytes-Encodes_example = varint_bytes-Encodes 494878333 (omega arith)
