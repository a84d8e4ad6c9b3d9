-- ===== src/Frame/Faults.antt =====
-- Where src/format/frame.c writes past an allocation or takes a frame for another.
use openquic.Common.{
  ℕ, ◌<◌, ◌≡◌, refl, arith, true, List, [], ◌∷◌, ◌++◌, append_assoc, length, length-append, none,
}
use openquic.Frame.{Frame, StreamDataBlocked}
use openquic.Frame.Parse
use openquic.Frame.Dispatch.{
  Codec, codec, parse_by, frame_parse, format_by, first_byte_of, frame_format, size_by, frame_size,
}
use openquic.Frame.Wire.{fault, varint, Parser, ◌>>=◌, first_byte, copy_data, alloc, Buf, wild}
use openquic.Frame.Carry.{Reads, Reads-alloc, Reads-varint}
use openquic.Varint.{varint_bytes}
use openquic.Varint.RoundTrip.{IsVarint}

-- A parser that faults on what begins with `bs`.
record Faults {A : Type 0} (p : Parser A) (bs : List ℕ) : Type 0 where
  at : (rest : List ℕ) → p (bs ++ rest) ≡ fault

Faults-seq :
    {A B : Type 0} (p : Parser A) (k : A → Parser B) (bs cs : List ℕ) {a : A}
    → Reads p bs a
    → Faults (k a) cs
    → Faults (p >>= k) (bs ++ cs)
Faults-seq p k bs cs u v = record {
  at = λ rest. rw (append_assoc bs cs rest) (rw (u (cs ++ rest), ◌>>=◌) (v.at rest));
}

Faults-first :
    {A B : Type 0} (p : Parser A) (k : A → Parser B) (bs : List ℕ)
    → Faults p bs
    → Faults (p >>= k) bs
Faults-first p k bs u = record { at = λ rest. rw (u.at rest, ◌>>=◌) }

-- A copy into no memory.
copy_nowhere : (src : List ℕ) → 0 < length src → Faults (copy_data 0 (length src)) src
unfolding copy_data
copy_nowhere src h = record { at = λ rest. ground (arith, length-append src rest) }

-- The bytes of an application close with the error code `code` and the reason `src`.
abbrev pub app_close : ℕ → List ℕ → List ℕ
app_close code src = 0x1d ∷ (varint_bytes code ++ (varint_bytes (length src) ++ src))

app_close-Faults :
    (code : ℕ) (src : List ℕ)
    → IsVarint code
    → IsVarint (length src)
    → 0 < length src
    → Faults (Parse.connection_close_parse true) (app_close code src)
unfolding Parse.connection_close_parse first_byte
app_close-Faults code src hc hl h =
    Faults-seq first_byte _ (0x1d ∷ []) (varint_bytes code ++ len_and_reason) {a = 0x1d}
      (λ rest. refl)
      (Faults-seq varint _ (varint_bytes code) len_and_reason (Reads-varint code hc) (
        Faults-seq varint _ (varint_bytes (length src)) src (Reads-varint (length src) hl) (
          Faults-seq (alloc true 3 3) _ [] src (Reads-alloc 3)
            (Faults-first (copy_data 0 (length src)) _ src (copy_nowhere src h)))))
  where
    len_and_reason : List ℕ
    len_and_reason = varint_bytes (length src) ++ src

-- Whatever error code below 2 ^ 62 and whatever non-empty reason an application CONNECTION_CLOSE
-- carries, and whatever follows it, quic_frame_parse copies the reason past the end of its
-- allocation.
pub frame_parse-app_close :
    (code : ℕ) (src rest : List ℕ)
    → IsVarint code
    → IsVarint (length src)
    → 0 < length src
    → frame_parse true (app_close code src ++ rest) ≡ fault
unfolding frame_parse parse_by codec
frame_parse-app_close code src rest hc hl h =
    rw ((app_close-Faults code src hc hl h).at rest, ◌>>=◌)

alloc_short : (rest : List ℕ) → alloc true 1 2 rest ≡ fault
unfolding alloc
alloc_short rest = refl

-- Whatever two integers below 2 ^ 62 follow a first byte that leads to
-- quic_stream_data_blocked_parse, quic_frame_parse stores them into an allocation that holds one.
pub frame_parse-stream_data_blocked :
    (first sid max_data : ℕ) (rest : List ℕ)
    → codec first ≡ Codec.stream_data_blocked
    → IsVarint sid
    → IsVarint max_data
    → frame_parse true (first ∷ (varint_bytes sid ++ (varint_bytes max_data ++ rest))) ≡ fault
unfolding frame_parse parse_by Parse.stream_data_blocked_parse first_byte
frame_parse-stream_data_blocked first sid max_data rest e hs hm =
    rw (e, Reads-varint sid hs (varint_bytes max_data ++ rest), ◌>>=◌)
      (rw (Reads-varint max_data hm rest, ◌>>=◌) (rw (alloc_short rest, ◌>>=◌)))

-- The STREAM_DATA_BLOCKED frame that quic_send_stream_generate queues has the type 0x15, which
-- leads to the formatter and the sizer of quic_frame_data_blocked_t: whatever its fields and the
-- buffer, the frame is taken for another struct.
pub frame_format-stream_data_blocked :
    (f : StreamDataBlocked) (b : Buf)
    → f.first_byte ≡ 0x15
    → (frame_format (Frame.stream_data_blocked f) b ≡ wild)
      × (frame_size (Frame.stream_data_blocked f) ≡ none)
unfolding frame_format frame_size format_by size_by first_byte_of codec
frame_format-stream_data_blocked f b e = (rw (e, codec), rw (e, codec))
