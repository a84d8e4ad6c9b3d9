-- ===== src/Frame/Format.antt =====
-- The formatters of src/format/frame.c.
use openquic.Common.{ℕ, List, [], ◌∷◌, Option, none, some, length, ◌==◌, if◌then◌else◌}
use openquic.Frame.{
  Plain, AckRange, Ect, Ack, ResetStream, StopSending, Crypto, NewToken, Stream, MaxData,
  MaxStreamData, MaxStreams, DataBlocked, StreamDataBlocked, StreamsBlocked, NewConnectionId,
  RetireConnectionId, PathChallenge, PathResponse, ConnectionClose,
}
use openquic.Frame.Parse.{has_flag}
use openquic.Frame.Wire.{Writer, ◌>>◌, skip, put_byte, put_varint, put_data, wild}

unfoldable pub ping_format : Plain → Writer
ping_format f = put_byte f.first_byte

-- The loop over the ranges.
unfoldable pub ranges_format : List AckRange → Writer
ranges_format [] = skip
ranges_format (r ∷ rs) = do put_varint r.gap; put_varint r.len; ranges_format rs

unfoldable pub ect_format : Option Ect → Writer
ect_format none b = wild
ect_format (some e) b = (do put_varint e.ect0; put_varint e.ect1; put_varint e.ect_ce) b

unfoldable pub ack_format : Ack → Writer
ack_format f = do
  put_byte f.first_byte
  put_varint f.largest_ack
  put_varint f.delay
  put_varint (length f.ranges)
  put_varint f.first_range
  ranges_format f.ranges
  if f.first_byte == 0x03 then ect_format f.ect else skip

unfoldable pub reset_stream_format : ResetStream → Writer
reset_stream_format f = do
  put_byte f.first_byte
  put_varint f.sid
  put_varint f.app_err
  put_varint f.final_size

unfoldable pub stop_sending_format : StopSending → Writer
stop_sending_format f = do put_byte f.first_byte; put_varint f.sid; put_varint f.app_err

unfoldable pub crypto_format : Crypto → Writer
crypto_format f = do
  put_byte f.first_byte
  put_varint f.off
  put_varint f.len
  put_data f.len f.payload

unfoldable pub new_token_format : NewToken → Writer
new_token_format f = do put_byte f.first_byte; put_varint f.len; put_data f.len f.payload

unfoldable pub stream_format : Stream → Writer
stream_format f = do
  put_byte f.first_byte
  put_varint f.sid
  if has_flag 0x0c f.first_byte then put_varint f.off else skip
  if has_flag 0x0a f.first_byte then put_varint f.len else skip
  put_data f.len f.payload

unfoldable pub max_data_format : MaxData → Writer
max_data_format f = do put_byte f.first_byte; put_varint f.max_data

unfoldable pub max_stream_data_format : MaxStreamData → Writer
max_stream_data_format f = do put_byte f.first_byte; put_varint f.sid; put_varint f.max_data

unfoldable pub max_streams_format : MaxStreams → Writer
max_streams_format f = do put_byte f.first_byte; put_varint f.max_streams

unfoldable pub data_blocked_format : DataBlocked → Writer
data_blocked_format f = do put_byte f.first_byte; put_varint f.max_data

unfoldable pub stream_data_blocked_format : StreamDataBlocked → Writer
stream_data_blocked_format f = do put_byte f.first_byte; put_varint f.sid; put_varint f.max_data

unfoldable pub streams_blocked_format : StreamsBlocked → Writer
streams_blocked_format f = do put_byte f.first_byte; put_varint f.max_streams

unfoldable pub new_connection_id_format : NewConnectionId → Writer
new_connection_id_format f = do
  put_byte f.first_byte
  put_varint f.seq
  put_varint f.retire
  put_byte f.len
  put_data f.len f.conn
  put_data 16 f.token

unfoldable pub retire_connection_id_format : RetireConnectionId → Writer
retire_connection_id_format f = do put_byte f.first_byte; put_varint f.seq

unfoldable pub path_challenge_format : PathChallenge → Writer
path_challenge_format f = do put_byte f.first_byte; put_data 8 f.payload

unfoldable pub path_response_format : PathResponse → Writer
path_response_format f = do put_byte f.first_byte; put_data 8 f.payload

-- Formatting a `type` that was never set is wild.
unfoldable pub kind_format : Option ℕ → Writer
kind_format none b = wild
kind_format (some k) b = put_varint k b

unfoldable pub connection_close_format : ConnectionClose → Writer
connection_close_format f = do
  put_byte f.first_byte
  put_varint f.err
  if f.first_byte == 0x1c then kind_format f.kind else skip
  put_varint f.len
  put_data f.len f.payload

unfoldable pub handshake_done_format : Plain → Writer
handshake_done_format f = put_byte f.first_byte
