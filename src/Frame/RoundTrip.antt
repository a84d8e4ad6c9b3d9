-- ===== src/Frame/RoundTrip.antt =====
-- quic_frame_format, quic_frame_parse and quic_frame_size together.
use openquic.Common.{
  ℕ, ◌≤◌, ◌<◌, ◌≡◌, refl, sym, ◌∙◌, arith, true, false, List, ◌∷◌, ◌++◌, some, length, ◌==◌,
  bad_format,
}
use openquic.Frame.{Frame}
use openquic.Frame.Parse.{has_flag}
use openquic.Frame.Dispatch.{
  Codec, codec, as_frame, parse_by, frame_parse, format_by, first_byte_of, frame_format, size_by,
  frame_size,
}
use openquic.Frame.Wire.{Parser, ok, ◌>>=◌, Buf, done, failed, Writer, push}
use openquic.Frame.Carry.{Writes, Framed}
use openquic.Frame.Fields
use openquic.Frame.Payloads
use openquic.Frame.Payloads.{KindFits}
use openquic.Frame.Acks.{IsAck, ack-Framed}
use openquic.Varint.RoundTrip.{IsVarint}

-- The frames that the theorems on formatting and parsing are about. The first byte leads to the
-- functions for the struct, integers are below 2 ^ 62, and payloads are as long as their length says.
-- Left out are
--   * STREAM_DATA_BLOCKED, whose parser stores more than it allocated, and a CONNECTION_CLOSE with a
--     reason, which its parser copies behind its allocation (see Frame/Faults),
--   * STREAMS_BLOCKED, which no first byte leads to,
--   * a STREAM frame that does not tell its length, which goes on to the end of the packet, and one
--     with an offset that its first byte does not announce.
abbrev pub IsCovered : Frame → Type 0
IsCovered (Frame.ping f) = codec f.first_byte ≡ Codec.ping
IsCovered (Frame.reset_stream f) =
    (codec f.first_byte ≡ Codec.reset_stream)
    × IsVarint f.sid
    × IsVarint f.app_err
    × IsVarint f.final_size
IsCovered (Frame.stop_sending f) =
    (codec f.first_byte ≡ Codec.stop_sending) × IsVarint f.sid × IsVarint f.app_err
IsCovered (Frame.max_data f) = (codec f.first_byte ≡ Codec.max_data) × IsVarint f.max_data
IsCovered (Frame.max_stream_data f) =
    (codec f.first_byte ≡ Codec.max_stream_data) × IsVarint f.sid × IsVarint f.max_data
IsCovered (Frame.max_streams f) = (codec f.first_byte ≡ Codec.max_streams) × IsVarint f.max_streams
IsCovered (Frame.data_blocked f) = (codec f.first_byte ≡ Codec.data_blocked) × IsVarint f.max_data
IsCovered (Frame.retire_connection_id f) =
    (codec f.first_byte ≡ Codec.retire_connection_id) × IsVarint f.seq
IsCovered (Frame.handshake_done f) = codec f.first_byte ≡ Codec.handshake_done
IsCovered (Frame.ack f) = (codec f.first_byte ≡ Codec.ack) × IsAck f
IsCovered (Frame.crypto f) =
    (codec f.first_byte ≡ Codec.crypto)
    × IsVarint f.off
    × IsVarint f.len
    × (length f.payload ≡ f.len)
IsCovered (Frame.new_token f) =
    (codec f.first_byte ≡ Codec.new_token) × IsVarint f.len × (length f.payload ≡ f.len)
IsCovered (Frame.stream f) =
    (codec f.first_byte ≡ Codec.stream)
    × IsVarint f.sid
    × IsVarint f.off
    × IsVarint f.len
    × (has_flag 0x0c f.first_byte ≡ false → f.off ≡ 0)
    × (has_flag 0x0a f.first_byte ≡ true)
    × (length f.payload ≡ f.len)
IsCovered (Frame.new_connection_id f) =
    (codec f.first_byte ≡ Codec.new_connection_id)
    × IsVarint f.seq
    × IsVarint f.retire
    × (1 ≤ f.len)
    × (f.len ≤ 20)
    × (length f.conn ≡ f.len)
    × (length f.token ≡ 16)
IsCovered (Frame.path_challenge f) =
    (codec f.first_byte ≡ Codec.path_challenge) × (length f.payload ≡ 8)
IsCovered (Frame.path_response f) =
    (codec f.first_byte ≡ Codec.path_response) × (length f.payload ≡ 8)
IsCovered (Frame.connection_close f) =
    (codec f.first_byte ≡ Codec.connection_close)
    × IsVarint f.err
    × KindFits (f.first_byte == 0x1c) f.kind
    × (f.len ≡ 0)
    × (length f.payload ≡ 0)
IsCovered (Frame.stream_data_blocked f) = ⊥
IsCovered (Frame.streams_blocked f) = ⊥

-- The bytes of a frame, as they are written, read and counted.
pub record Codes (f : Frame) : Type 0 where
  pub bytes : List ℕ
  pub writes : Writes (frame_format f) bytes
  pub reads : (rest : List ℕ) → frame_parse true (bytes ++ rest) ≡ ok (f, rest)
  pub sized : frame_size f ≡ some (length bytes)

Codes-intro :
    {A : Type 0} {n : ℕ} {w : Writer} {p : Parser A} (c : A → Frame) (a : A) (cd : Codec)
    → codec (first_byte_of (c a)) ≡ cd
    → format_by cd (c a) ≡ w
    → parse_by cd true ≡ as_frame c p
    → size_by cd (c a) ≡ some n
    → Framed w p (first_byte_of (c a)) a n
    → Codes (c a)
unfolding frame_format frame_parse frame_size
Codes-intro c a cd e ew ep es u = record {
  bytes = first_byte_of (c a) ∷ u.more;
  writes = rw (e, ew) u.writes;
  reads = λ rest. rw (e, ep) (rw (u.reads rest, ◌>>=◌));
  sized = rw (e, es, u.size);
}

pub frame-Codes : (f : Frame) → IsCovered f → Codes f
unfolding parse_by format_by size_by first_byte_of
frame-Codes (Frame.ping f) e =
    Codes-intro Frame.ping f Codec.ping e refl refl refl (Fields.ping-Framed f)
frame-Codes (Frame.reset_stream f) (e, h0, h1, h2) =
    Codes-intro Frame.reset_stream f Codec.reset_stream e refl refl refl
      (Fields.reset_stream-Framed f h0 h1 h2)
frame-Codes (Frame.stop_sending f) (e, h0, h1) =
    Codes-intro Frame.stop_sending f Codec.stop_sending e refl refl refl
      (Fields.stop_sending-Framed f h0 h1)
frame-Codes (Frame.max_data f) (e, h0) =
    Codes-intro Frame.max_data f Codec.max_data e refl refl refl (Fields.max_data-Framed f h0)
frame-Codes (Frame.max_stream_data f) (e, h0, h1) =
    Codes-intro Frame.max_stream_data f Codec.max_stream_data e refl refl refl
      (Fields.max_stream_data-Framed f h0 h1)
frame-Codes (Frame.max_streams f) (e, h0) =
    Codes-intro Frame.max_streams f Codec.max_streams e refl refl refl
      (Fields.max_streams-Framed f h0)
frame-Codes (Frame.data_blocked f) (e, h0) =
    Codes-intro Frame.data_blocked f Codec.data_blocked e refl refl refl
      (Fields.data_blocked-Framed f h0)
frame-Codes (Frame.retire_connection_id f) (e, h0) =
    Codes-intro Frame.retire_connection_id f Codec.retire_connection_id e refl refl refl
      (Fields.retire_connection_id-Framed f h0)
frame-Codes (Frame.handshake_done f) e =
    Codes-intro Frame.handshake_done f Codec.handshake_done e refl refl refl
      (Fields.handshake_done-Framed f)
frame-Codes (Frame.ack f) (e, h0) =
    Codes-intro Frame.ack f Codec.ack e refl refl refl (ack-Framed f h0)
frame-Codes (Frame.crypto f) (e, h0, h1, h2) =
    Codes-intro Frame.crypto f Codec.crypto e refl refl refl (Payloads.crypto-Framed f h0 h1 h2)
frame-Codes (Frame.new_token f) (e, h0, h1) =
    Codes-intro Frame.new_token f Codec.new_token e refl refl refl
      (Payloads.new_token-Framed f h0 h1)
frame-Codes (Frame.stream f) (e, h0, h1, h2, h3, h4, h5) =
    Codes-intro Frame.stream f Codec.stream e refl refl refl
      (Payloads.stream-Framed f h0 h1 h2 h3 h4 h5)
frame-Codes (Frame.new_connection_id f) (e, h0, h1, h2, h3, h4, h5) =
    Codes-intro Frame.new_connection_id f Codec.new_connection_id e refl refl refl
      (Payloads.new_connection_id-Framed f h0 h1 h2 h3 h4 h5)
frame-Codes (Frame.path_challenge f) (e, h0) =
    Codes-intro Frame.path_challenge f Codec.path_challenge e refl refl refl
      (Payloads.path_challenge-Framed f h0)
frame-Codes (Frame.path_response f) (e, h0) =
    Codes-intro Frame.path_response f Codec.path_response e refl refl refl
      (Payloads.path_response-Framed f h0)
frame-Codes (Frame.connection_close f) (e, h0, h1, h2, h3) =
    Codes-intro Frame.connection_close f Codec.connection_close e refl refl refl
      (Payloads.connection_close-Framed f h0 h1 h2 h3)
frame-Codes (Frame.stream_data_blocked f) h = absurd h
frame-Codes (Frame.streams_blocked f) h = absurd h

some-inj : (m n : ℕ) → some m ≡ some n → m ≡ n
some-inj m n e = cc

-- A frame of any kind but STREAM_DATA_BLOCKED and STREAMS_BLOCKED, in range and with the first
-- byte of its kind, where a CONNECTION_CLOSE has no reason and a STREAM frame tells its length,
-- and whose size fits the room left in the buffer, is formatted to just as many bytes as
-- quic_frame_size tells, appended to the buffer, and, where memory is granted, quic_frame_parse
-- reads the same frame back from them, whatever follows.
pub parse-format :
    (f : Frame) (b : Buf) (n : ℕ)
    → IsCovered f
    → frame_size f ≡ some n
    → n ≤ b.room
    → (bytes : List ℕ) × (frame_format f b ≡ done (push bytes b))
      × (length bytes ≡ n)
      × ((rest : List ℕ) → frame_parse true (bytes ++ rest) ≡ ok (f, rest))
parse-format f b n v e h =
    let u : Codes f = frame-Codes f v in
    let len : length (u.bytes) ≡ n = some-inj _ _ (sym u.sized ∙ e) in
    (u.bytes, u.writes.fits b (omega arith), len, u.reads)

-- A frame of any kind but STREAM_DATA_BLOCKED and STREAMS_BLOCKED, in range and with the first
-- byte of its kind, where a CONNECTION_CLOSE has no reason and a STREAM frame tells its length,
-- and whose size passes the room left in the buffer, is refused with quic_err_bad_format.
pub format_full :
    (f : Frame) (b : Buf) (n : ℕ)
    → IsCovered f
    → frame_size f ≡ some n
    → b.room < n
    → (b' : Buf) × (frame_format f b ≡ failed bad_format b')
format_full f b n v e h =
    let u : Codes f = frame-Codes f v in
    let len : length (u.bytes) ≡ n = some-inj _ _ (sym u.sized ∙ e) in u.writes.full b (omega arith)
