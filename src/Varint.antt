-- ===== src/Varint.antt =====
-- src/utils/varint.h: integers below 2 ^ 62 in 1, 2, 4 or 8 bytes, highest byte first.
-- The macros load and store the bytes through a swap of a little-endian word; here the bytes are
-- listed in the order in which they lie in memory.
use openquic.Common.{ℕ, zero, suc, ◌+◌, ◌*◌, ◌/◌, ◌%◌, ◌^◌, bit_and, bit_or, List, [], ◌∷◌}
use openquic.Common.{leb, ◌==◌, if◌then◌else◌}
pub mod RoundTrip
mod Tests

-- quic_varint_len, of the byte that `payload` points at.
unfoldable pub varint_len : ℕ → ℕ
varint_len b = 2 ^ (bit_and b 0xc0 / 64)

-- The number with the top part `acc` and the first `n` of the given bytes below it.
unfoldable pub read_be : ℕ → ℕ → List ℕ → ℕ
read_be acc zero bs = acc
read_be acc (suc n) [] = acc
read_be acc (suc n) (b ∷ bs) = read_be (acc * 256 + b) n bs

-- quic_varint_r, of the first byte and those behind it.
unfoldable pub varint_r : ℕ → List ℕ → ℕ
unfolding varint_len read_be
varint_r b bs =
    if varint_len b == 1
    then b
    else if varint_len b == 2
    then read_be (bit_and b 0x3f) 1 bs
    else if varint_len b == 4
    then read_be (bit_and b 0x3f) 3 bs
    else if varint_len b == 8
    then read_be (bit_and b 0x3f) 7 bs
    else 0

-- quic_varint_format_len
unfoldable pub varint_format_len : ℕ → ℕ
varint_format_len v =
    if leb v 63
    then 1
    else if leb v 16383
    then 2
    else if leb v 1073741823
    then 4
    else if leb v 4611686018427387903
    then 8
    else 0

-- The low `n` bytes of a number, highest first.
unfoldable pub be_bytes : ℕ → ℕ → List ℕ
be_bytes zero v = []
be_bytes (suc n) v = (v / 256 ^ n % 256) ∷ be_bytes n v

-- `| mask` on the word whose lowest byte is the first in memory.
unfoldable pub or_first : ℕ → List ℕ → List ℕ
or_first mask [] = []
or_first mask (b ∷ bs) = bit_or b mask ∷ bs

-- quic_varint_format_r: the bytes that it stores at `pos`. From 2 ^ 62 on it stores none.
unfoldable pub varint_bytes : ℕ → List ℕ
unfolding varint_format_len be_bytes or_first
varint_bytes v =
    if varint_format_len v == 1
    then be_bytes 1 v
    else if varint_format_len v == 2
    then or_first 0x40 (be_bytes 2 v)
    else if varint_format_len v == 4
    then or_first 0x80 (be_bytes 4 v)
    else if varint_format_len v == 8
    then or_first 0xc0 (be_bytes 8 v)
    else []
