-- ===== src/Frame/Parse.antt =====
-- The parsers of src/format/frame.c. `granted` tells whether the one call of malloc succeeds.
use openquic.Common.{ℕ, zero, suc, ◌*◌, ◌+◌, ◌%◌, ◌^◌, Bool, not, ◌||◌, List, [], ◌∷◌}
use openquic.Common.{Option, none, some, length, ltb, ◌==◌, if◌then◌else◌, bit_and, bad_format}
use openquic.Frame.{
  Plain, AckRange, Ect, Ack, ResetStream, StopSending, Crypto, NewToken, Stream, MaxData,
  MaxStreamData, MaxStreams, DataBlocked, StreamDataBlocked, StreamsBlocked, NewConnectionId,
  RetireConnectionId, PathChallenge, PathResponse, ConnectionClose,
}
use openquic.Frame.Wire.{Parser, ok, err, over_read, ◌>>=◌, pure, first_byte, varint, copy_data}
use openquic.Frame.Wire.{alloc}

-- The test of a flag in the first byte, such as `(b & quic_frame_stream_type_off) == ...`.
abbrev pub has_flag : ℕ → ℕ → Bool
has_flag flag b = bit_and b flag == flag

unfoldable pub ping_parse : Bool → Parser Plain
ping_parse granted = do
  first ← first_byte
  _ ← alloc granted 0 0
  pure (record { first_byte = first })

-- The loop over the ranges, `n` of them still to be read.
unfoldable pub ranges_parse : ℕ → Parser (List AckRange)
ranges_parse zero = pure []
ranges_parse (suc n) = do
  gap ← varint
  len ← varint
  more ← ranges_parse n
  pure (record { gap = gap; len = len } ∷ more)

unfoldable pub ect_parse : Parser (Option Ect)
ect_parse = do
  ect0 ← varint
  ect1 ← varint
  ect_ce ← varint
  pure (some (record { ect0 = ect0; ect1 = ect1; ect_ce = ect_ce }))

-- `ranges.count` is a `uint32_t`. Without the ECN type the counters stay unset.
unfoldable pub ack_parse : Bool → Parser Ack
ack_parse granted = do
  first ← first_byte
  largest_ack ← varint
  delay ← varint
  count ← varint
  first_range ← varint
  _ ← alloc granted (2 * (count % 2 ^ 32)) (2 * (count % 2 ^ 32))
  ranges ← ranges_parse (count % 2 ^ 32)
  ect ← if first == 0x03 then ect_parse else pure none
  pure (record {
    first_byte = first;
    largest_ack = largest_ack;
    delay = delay;
    first_range = first_range;
    ect = ect;
    ranges = ranges;
  })

unfoldable pub reset_stream_parse : Bool → Parser ResetStream
reset_stream_parse granted = do
  first ← first_byte
  sid ← varint
  app_err ← varint
  final_size ← varint
  _ ← alloc granted 3 3
  pure (record { first_byte = first; sid = sid; app_err = app_err; final_size = final_size })

unfoldable pub stop_sending_parse : Bool → Parser StopSending
stop_sending_parse granted = do
  first ← first_byte
  sid ← varint
  app_err ← varint
  _ ← alloc granted 2 2
  pure (record { first_byte = first; sid = sid; app_err = app_err })

unfoldable pub crypto_parse : Bool → Parser Crypto
crypto_parse granted = do
  first ← first_byte
  off ← varint
  len ← varint
  _ ← alloc granted 2 2
  payload ← copy_data len len
  pure (record { first_byte = first; off = off; len = len; payload = payload })

unfoldable pub new_token_parse : Bool → Parser NewToken
new_token_parse granted = do
  first ← first_byte
  len ← varint
  _ ← alloc granted 1 1
  payload ← copy_data len len
  pure (record { first_byte = first; len = len; payload = payload })

-- `last - pos`
unfoldable pub remaining : Parser ℕ
remaining bs = ok (length bs, bs)

unfoldable pub stream_parse : Bool → Parser Stream
unfolding remaining
stream_parse granted = do
  first ← first_byte
  sid ← varint
  off ← if has_flag 0x0c first then varint else pure 0
  len ← if has_flag 0x0a first then varint else remaining
  _ ← alloc granted 3 3
  payload ← copy_data len len
  pure (record { first_byte = first; sid = sid; off = off; len = len; payload = payload })

unfoldable pub max_data_parse : Bool → Parser MaxData
max_data_parse granted = do
  first ← first_byte
  max_data ← varint
  _ ← alloc granted 1 1
  pure (record { first_byte = first; max_data = max_data })

unfoldable pub max_stream_data_parse : Bool → Parser MaxStreamData
max_stream_data_parse granted = do
  first ← first_byte
  sid ← varint
  max_data ← varint
  _ ← alloc granted 2 2
  pure (record { first_byte = first; sid = sid; max_data = max_data })

unfoldable pub max_streams_parse : Bool → Parser MaxStreams
max_streams_parse granted = do
  first ← first_byte
  max_streams ← varint
  _ ← alloc granted 1 1
  pure (record { first_byte = first; max_streams = max_streams })

unfoldable pub data_blocked_parse : Bool → Parser DataBlocked
data_blocked_parse granted = do
  first ← first_byte
  max_data ← varint
  _ ← alloc granted 1 1
  pure (record { first_byte = first; max_data = max_data })

-- The allocation is of the size of quic_frame_data_blocked_t, which has one field less.
unfoldable pub stream_data_blocked_parse : Bool → Parser StreamDataBlocked
stream_data_blocked_parse granted = do
  first ← first_byte
  sid ← varint
  max_data ← varint
  _ ← alloc granted 1 2
  pure (record { first_byte = first; sid = sid; max_data = max_data })

unfoldable pub streams_blocked_parse : Bool → Parser StreamsBlocked
streams_blocked_parse granted = do
  first ← first_byte
  max_streams ← varint
  _ ← alloc granted 1 1
  pure (record { first_byte = first; max_streams = max_streams })

-- `if (!test) return quic_err_bad_format;`
unfoldable pub require : Bool → Parser (Unit {0})
require test bs = if test then ok (tt, bs) else err bad_format

-- A quic_first_byte inside of a frame. At the end of the buffer it reads the byte behind it and steps
-- over `last`, so that the length test that follows fails whatever byte was read.
unfoldable pub len_byte : Parser ℕ
len_byte [] = over_read
len_byte (b ∷ bs) = ok (b, bs)

-- The two copies stand behind one test of `len + 16` bytes.
unfoldable pub new_connection_id_parse : Bool → Parser NewConnectionId
unfolding require remaining len_byte
new_connection_id_parse granted = do
  first ← first_byte
  seq ← varint
  retire ← varint
  len ← len_byte
  _ ← require (not (ltb len 1 || ltb 20 len))
  left ← remaining
  _ ← require (not (ltb left (len + 16)))
  conn ← copy_data 20 len
  token ← copy_data 16 16
  _ ← alloc granted 2 2
  pure (record {
    first_byte = first;
    seq = seq;
    retire = retire;
    len = len;
    conn = conn;
    token = token;
  })

unfoldable pub retire_connection_id_parse : Bool → Parser RetireConnectionId
retire_connection_id_parse granted = do
  first ← first_byte
  seq ← varint
  _ ← alloc granted 1 1
  pure (record { first_byte = first; seq = seq })

unfoldable pub path_challenge_parse : Bool → Parser PathChallenge
path_challenge_parse granted = do
  first ← first_byte
  payload ← copy_data 8 8
  _ ← alloc granted 1 1
  pure (record { first_byte = first; payload = payload })

unfoldable pub path_response_parse : Bool → Parser PathResponse
path_response_parse granted = do
  first ← first_byte
  payload ← copy_data 8 8
  _ ← alloc granted 1 1
  pure (record { first_byte = first; payload = payload })

-- The allocation has no room for the reason that is copied behind the struct.
unfoldable pub connection_close_parse : Bool → Parser ConnectionClose
connection_close_parse granted = do
  first ← first_byte
  code ← varint
  kind ← if first == 0x1c then (do k ← varint; pure (some k)) else pure none
  len ← varint
  _ ← alloc granted 3 3
  payload ← copy_data 0 len
  pure (record { first_byte = first; err = code; kind = kind; len = len; payload = payload })

unfoldable pub handshake_done_parse : Bool → Parser Plain
handshake_done_parse granted = do
  first ← first_byte
  _ ← alloc granted 0 0
  pure (record { first_byte = first })
