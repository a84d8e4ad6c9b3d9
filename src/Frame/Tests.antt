-- ===== src/Frame/Tests.antt =====
-- Runs of src/format/frame.c, and witnesses.
use openquic.Common.{ℕ, List, [], ◌∷◌, ◌++◌, ◌≡◌, refl, arith, true, none, some, length, bad_format}
use openquic.Frame.{Frame, StreamDataBlocked}
use openquic.Frame.Wire.{Buf, ok, done, failed, push}
use openquic.Frame.Dispatch.{codec, frame_parse, frame_format, frame_size, size_by, first_byte_of}
use openquic.Frame.Size.{ack_size, ranges_size, reset_stream_size}
use openquic.Frame.RoundTrip.{IsCovered, parse-format, format_full}
use openquic.Frame.Sound.{Outcome}
use openquic.Frame.Safety.{frame_parse_safe}
use openquic.Varint.{varint_format_len}

abbrev two_ranges : Frame
two_ranges = Frame.ack (record {
  first_byte = 0x02;
  largest_ack = 100;
  delay = 5;
  first_range = 3;
  ect = none;
  ranges = record { gap = 1; len = 2 } ∷ record { gap = 70; len = 0 } ∷ [];
})

abbrev reset : Frame
reset = Frame.reset_stream (record { first_byte = 0x04; sid = 4; app_err = 300; final_size = 9 })

abbrev blocked : StreamDataBlocked
blocked = record { first_byte = 0x15; sid = 4; max_data = 1000 }

abbrev sixteen : Buf
sixteen = record { out = []; room = 16 }

abbrev three : Buf
three = record { out = []; room = 3 }

two_ranges-IsCovered : IsCovered two_ranges
unfolding codec
two_ranges-IsCovered = (
  refl,
  record {
    largest = omega arith;
    delay = omega arith;
    first = omega arith;
    count = omega arith;
    fits = ((omega arith, omega arith), ((omega arith, omega arith), tt));
    ect = tt;
  },
)

reset-IsCovered : IsCovered reset
unfolding codec
reset-IsCovered = (refl, omega arith, omega arith, omega arith)

two_ranges_size : frame_size two_ranges ≡ some 11
unfolding frame_size size_by codec first_byte_of ack_size ranges_size varint_format_len
two_ranges_size = refl

reset_size : frame_size reset ≡ some 5
unfolding frame_size size_by codec first_byte_of reset_stream_size varint_format_len
reset_size = refl

parse-format_example :
    (bytes : List ℕ) × (frame_format two_ranges sixteen ≡ done (push bytes sixteen))
    × (length bytes ≡ 11)
    × ((rest : List ℕ) → frame_parse true (bytes ++ rest) ≡ ok (two_ranges, rest))
parse-format_example =
    parse-format two_ranges sixteen 11 two_ranges-IsCovered two_ranges_size (omega arith)

format_full_example : (b : Buf) × (frame_format reset three ≡ failed bad_format b)
format_full_example = format_full reset three 5 reset-IsCovered reset_size (omega arith)

frame_parse_safe_example : Outcome (0x10 ∷ 0x40 ∷ []) (frame_parse true (0x10 ∷ 0x40 ∷ []))
unfolding codec
frame_parse_safe_example = frame_parse_safe true 0x10 (0x40 ∷ []) (λ h. h)
