-- ===== src/Sender/Tests.antt =====
-- Headers of packets, and witnesses.
use openquic.Common.{ℕ, ◌+◌, ◌≤◌, ◌≡◌, refl, arith, List, [], ◌∷◌, ◌++◌, length}
use openquic.Frame.Wire.{ok, Buf, done, push}
use openquic.Header.{LongHeader, long_header, number_format_len, initial_header, short_header}
use openquic.Varint.{varint_format_len}
use openquic.Sender.{initial_header_max_size, generate_initial_header, generate_short_header}
use openquic.Sender.Headers.{
  initial_header-generate_initial_header, short_header-generate_short_header,
}

abbrev slice : Buf
slice = record { out = []; room = 64 }

short_run : generate_short_header (7 ∷ []) 300 slice ≡ done (push (0x41 ∷ 7 ∷ 1 ∷ 44 ∷ []) slice)
unfolding generate_short_header openquic.Header.number_format number_format_len
short_run = refl

fits : initial_header_max_size (7 ∷ []) (8 ∷ 9 ∷ []) 70000 1200 ≤ 64
unfolding initial_header_max_size varint_format_len number_format_len
fits = omega arith

initial_header-generate_initial_header_example :
    (bytes : List ℕ) × (generate_initial_header (7 ∷ []) (8 ∷ 9 ∷ []) 70000 1200 slice
      ≡ done (push bytes slice))
    × (length bytes ≡ initial_header_max_size (7 ∷ []) (8 ∷ 9 ∷ []) 70000 1200)
    × ((x : ℕ) (rest : List ℕ)
        → initial_header (bytes ++ x ∷ rest)
          ≡ ok (
            record { packet_type = 0xc0; token = []; payload_len = 1200; p_num = 70000 },
            x ∷ rest,
          ))
    × ((rest : List ℕ)
        → (h : LongHeader) × (left : List ℕ) × (long_header (bytes ++ rest) ≡ ok (h, left))
          × (h.dst ≡ 7 ∷ [])
          × (h.src ≡ 8 ∷ 9 ∷ []))
initial_header-generate_initial_header_example =
    initial_header-generate_initial_header (7 ∷ []) (8 ∷ 9 ∷ []) 70000 1200 slice (omega arith)
      (omega arith) (omega arith) (omega arith) fits

short_header-generate_short_header_example :
    (bytes : List ℕ) × (generate_short_header (7 ∷ []) 300 slice ≡ done (push bytes slice))
    × (length bytes ≡ 2 + number_format_len 300)
    × ((x : ℕ) (rest : List ℕ)
        → short_header 1 (bytes ++ x ∷ rest)
          ≡ ok (record { packet_type = 0x40; token = []; payload_len = 0; p_num = 300 }, x ∷ rest))
unfolding number_format_len
short_header-generate_short_header_example =
    short_header-generate_short_header (7 ∷ []) [] 300 0 slice (omega arith) (omega arith)
