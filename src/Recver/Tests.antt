-- ===== src/Recver/Tests.antt =====
-- Packets as the receiver takes them apart, and witnesses.
use openquic.Common.{
  ℕ, ◌+◌, ◌≡◌, ◌≢◌, refl, arith, List, [], ◌∷◌, Option, none, some, true, false, length, ◌==◌,
  if◌then◌else◌, success,
}
use openquic.Frame.{Frame}
use openquic.Frame.Wire.{Buf, done, ok}
use openquic.Header.{Payload, packet_type}
use openquic.Header.Offset.{Found}
use openquic.Sealer.{payload_len, payload}
use openquic.Recver.{Handler, finished, read_header, process_frames}
use openquic.Recver.Headers.{read_header-Found}
use openquic.Frame.Dispatch.{codec}
use openquic.Recver.Frames.{AllCovered, handed, process_frames-payload}

-- An initial packet with the number 5 and two bytes of payload.
abbrev header_bytes : List ℕ
header_bytes = 0 ∷ 0 ∷ 0 ∷ 0 ∷ 1 ∷ 7 ∷ 0 ∷ 0 ∷ 2 ∷ 5 ∷ 9 ∷ 9 ∷ []

abbrev header : Payload
header = record { packet_type = 0xc0; token = []; payload_len = 2; p_num = 5 }

header_run : read_header 1 (0xc0 ∷ header_bytes) ≡ ok (header, 9 ∷ 9 ∷ [])
unfolding read_header openquic.Header.is_long packet_type openquic.Header.initial_header
    openquic.Varint.varint_len openquic.Varint.varint_r
header_run = refl

not_zero_rtt : packet_type 0xc0 ≢ 0xd0
unfolding packet_type
not_zero_rtt = λ e. omega (arith, e)

read_header-Found_example : Found 1 0xc0 header_bytes header (9 ∷ 9 ∷ [])
read_header-Found_example =
    read_header-Found 1 0xc0 header_bytes (9 ∷ 9 ∷ []) header not_zero_rtt header_run

-- A session that counts the frames it is handed, and takes no PING.
abbrev counting : ℕ → Option (Handler ℕ)
counting b = if b == 0x01 then none else some (λ kind time f s. (success, s + 1))

abbrev frames : List Frame
frames =
    Frame.ping (record { first_byte = 0x01 })
    ∷ Frame.max_data (record { first_byte = 0x10; max_data = 5 })
    ∷ []

frames_len : payload_len frames ≡ some 3
unfolding payload_len openquic.Frame.Dispatch.frame_size openquic.Frame.Dispatch.size_by
    openquic.Frame.Dispatch.codec openquic.Frame.Dispatch.first_byte_of
    openquic.Frame.Size.ping_size openquic.Frame.Size.max_data_size
    openquic.Varint.varint_format_len
frames_len = refl

handed_run : handed counting 0x40 0 frames false false 0 ≡ finished true false 1
unfolding handed openquic.Frame.Dispatch.first_byte_of openquic.Stream.Recv.is_success
handed_run = refl

frames_lem : AllCovered frames
unfolding codec
frames_lem = (refl, ((refl, omega arith), tt))

process_frames-payload_example :
    (b : Buf) × (payload frames ≡ some (done b))
    × (length b.out ≡ 3)
    × (b.room ≡ 0)
    × (process_frames counting (λ i. true) 0x40 0 b.out 0
        ≡ handed counting 0x40 0 frames false false 0)
process_frames-payload_example =
    process_frames-payload counting 0x40 0 frames 3 0 frames_lem frames_len
