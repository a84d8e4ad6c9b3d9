-- ===== src/AckGenerator/Wire.antt =====
-- The frame of quic_ack_generator_generate, formatted by one endpoint and parsed by the other.
use openquic.Common.{
  ℕ, ◌+◌, ◌*◌, ◌^◌, ◌≤◌, ◌<◌, ◌≡◌, refl, ◌∙◌, arith, true, false, not, ◌&&◌, ◌||◌, List, [], ◌∷◌,
  ◌++◌, some, length, ltb, ◌==◌, sub64,
}
use mathlib.Core.List.{reverse}
use openquic.Frame.{Frame, Ack, AckRange}
use openquic.Frame.Size.{ranges_size, ack_size}
use openquic.Frame.Format.{ack_format}
use openquic.Frame.RoundTrip.{parse-format}
use openquic.Frame.Wire.{Buf, done, push, ok}
use openquic.Frame.Dispatch.{
  Codec, codec, first_byte_of, format_by, size_by, frame_format, frame_parse, frame_size,
}
use openquic.Varint.{varint_format_len}
use openquic.AckGenerator.{AckGenerator, Generated, frame, frame_of, generate}
use openquic.AckGenerator.Ranges.{IsNumber, covers}
use openquic.AckGenerator.Insert.{IsAckGenerator}
use openquic.AckGenerator.Generate.{acks, bare, is_due, generate-Tells}

format_len_le : (v : ℕ) → varint_format_len v ≤ 8
unfolding varint_format_len
format_len_le v = ground arith

ranges_size_le : (rs : List AckRange) → ranges_size rs ≤ 16 * length rs
unfolding ranges_size
ranges_size_le [] = omega arith
ranges_size_le (r ∷ rs) = omega (arith, format_len_le r.gap, format_len_le r.len, ranges_size_le rs)

bare_format :
    (f : Ack) → f.first_byte ≡ 0x02 → frame_format (Frame.ack f) ≡ frame_format (Frame.ack (bare f))
unfolding frame_format first_byte_of codec format_by ack_format
bare_format f e = rw e refl

bare_size :
    (f : Ack)
    → f.first_byte ≡ 0x02
    → (n : ℕ) × (frame_size (Frame.ack (bare f)) ≡ some n) × (n ≤ 33 + 16 * length f.ranges)
unfolding frame_size first_byte_of codec size_by ack_size
bare_size f e = (
  ack_size (bare f),
  rw e refl,
  rw e (
      omega (
        arith,
        format_len_le f.largest_ack,
        format_len_le f.delay,
        format_len_le (length f.ranges),
        format_len_le f.first_range,
        ranges_size_le f.ranges,
      )),
)

bare-IsCovered : (f : Ack) → f.first_byte ≡ 0x02 → codec f.first_byte ≡ Codec.ack
unfolding codec
bare-IsCovered f e = rw e refl

pub generate_due :
    (now : ℕ) (m : AckGenerator) (g : Generated)
    → m.dropped ≡ false
    → is_due now m ≡ true
    → frame_of m.ranges_count (sub64 now m.lg_obtime) (reverse m.ranges) ≡ g
    → generate true now m ≡ (g, record m { alarm = 0; should_send = false })
unfolding generate
generate_due now m g q due e =
    let wanted : (not m.should_send && (m.alarm == 0 || ltb now m.alarm)) ≡ false = ground arith in
    rw (q, wanted, e) refl

-- What is sent at the time `now` when there is something to say and room in the buffer.
pub record Acknowledges (now : ℕ) (m : AckGenerator) (b : Buf) : Type 0 where
  pub told : Ack
  pub seen : Ack
  pub bytes : List ℕ
  pub generated : generate true now m ≡ (frame told, record m { alarm = 0; should_send = false })
  pub sent : frame_format (Frame.ack told) b ≡ done (push bytes b)
  pub arrives : (rest : List ℕ) → frame_parse true (bytes ++ rest) ≡ ok (Frame.ack seen, rest)
  pub same : (i : ℕ) → acks i seen ≡ covers i m.ranges

-- Where an ACK frame is due, memory is granted, the ranges are valid, counted, at least one and
-- fewer than 2 ^ 32, the delay is below 2 ^ 62 and the buffer has room for 17 bytes and 16 for
-- each range, the generator makes a frame, and what the peer parses from its bytes acknowledges
-- exactly the packet numbers in the ranges; alarm and should_send are cleared and all else is
-- kept.
pub generate-Acknowledges :
    (now : ℕ) (m : AckGenerator) (b : Buf)
    → IsAckGenerator m
    → m.dropped ≡ false
    → is_due now m ≡ true
    → 1 ≤ length m.ranges
    → length m.ranges < 2 ^ 32
    → IsNumber (sub64 now m.lg_obtime)
    → 17 + 16 * length m.ranges ≤ b.room
    → Acknowledges now m b
generate-Acknowledges now m b v q due h k d room =
    let (u, same, long) = generate-Tells now m v h k d in
    let (n, sized, small) = bare_size u.told u.kind in
    let (bytes, sent, l, arrives) =
      parse-format (Frame.ack (bare u.told)) b n (bare-IsCovered u.told u.kind, u.is_ack) sized
        (omega (arith, small, u.long, long, room)) in
    record {
      told = u.told;
      seen = bare u.told;
      bytes = bytes;
      generated = generate_due now m (frame u.told) q due u.is_frame;
      sent = rw (bare_format u.told u.kind) sent;
      arrives = arrives;
      same = λ i. u.same i ∙ same i;
    }
