-- ===== src/Header/Tests.antt =====
-- Runs of src/format/header.h.
use openquic.Common.{◌≡◌, refl, [], ◌∷◌, none}
use openquic.Frame.Wire.{ok, fault}
use openquic.Header.{number_format_len, packet_number, packet_number_off}

-- The bound of three bytes is a decimal number.
len_of_million : number_format_len 1000000 ≡ 4
unfolding number_format_len
len_of_million = refl

three_bytes : packet_number 0x42 (1 ∷ 2 ∷ 3 ∷ 9 ∷ []) ≡ ok (66051, 9 ∷ [])
unfolding packet_number openquic.Varint.read_be
three_bytes = refl

-- A number of three bytes at the end of the packet is loaded with the byte behind it.
three_bytes_at_end : packet_number 0x42 (1 ∷ 2 ∷ 3 ∷ []) ≡ fault
unfolding packet_number
three_bytes_at_end = refl

-- Of a 0-RTT packet no pointer is found.
zero_rtt_off : packet_number_off 4 (0xd0 ∷ 0 ∷ []) ≡ ok (none, 0xd0 ∷ 0 ∷ [])
unfolding packet_number_off
zero_rtt_off = refl
