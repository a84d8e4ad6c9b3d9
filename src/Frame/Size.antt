-- ===== src/Frame/Size.antt =====
-- The sizers of src/format/frame.c. The sums stay far below 2 ^ 64.
use openquic.Common.{ℕ, ◌+◌, List, [], ◌∷◌, Option, none, some, length, ◌==◌, if◌then◌else◌}
use openquic.Frame.{
  Plain, AckRange, Ect, Ack, ResetStream, StopSending, Crypto, NewToken, Stream, MaxData,
  MaxStreamData, MaxStreams, DataBlocked, StreamDataBlocked, StreamsBlocked, NewConnectionId,
  RetireConnectionId, PathChallenge, PathResponse, ConnectionClose,
}
use openquic.Frame.Parse.{has_flag}
use openquic.Varint.{varint_format_len}

unfoldable pub ping_size : Plain → ℕ
ping_size f = 1

unfoldable pub ranges_size : List AckRange → ℕ
ranges_size [] = 0
ranges_size (r ∷ rs) = varint_format_len r.gap + varint_format_len r.len + ranges_size rs

-- Counters that were never set have no size of their own: 0 stands for it.
unfoldable pub ect_size : Option Ect → ℕ
ect_size none = 0
ect_size (some e) = varint_format_len e.ect0 + varint_format_len e.ect1 + varint_format_len e.ect_ce

unfoldable pub ack_size : Ack → ℕ
ack_size f =
    1
    + varint_format_len f.largest_ack
    + varint_format_len f.delay
    + varint_format_len (length f.ranges)
    + varint_format_len f.first_range
    + ranges_size f.ranges
    + (if f.first_byte == 0x03 then ect_size f.ect else 0)

unfoldable pub reset_stream_size : ResetStream → ℕ
reset_stream_size f =
    1 + varint_format_len f.sid + varint_format_len f.app_err + varint_format_len f.final_size

unfoldable pub stop_sending_size : StopSending → ℕ
stop_sending_size f = 1 + varint_format_len f.sid + varint_format_len f.app_err

unfoldable pub crypto_size : Crypto → ℕ
crypto_size f = 1 + varint_format_len f.off + varint_format_len f.len + f.len

unfoldable pub new_token_size : NewToken → ℕ
new_token_size f = 1 + varint_format_len f.len + f.len

unfoldable pub stream_size : Stream → ℕ
stream_size f =
    1
    + varint_format_len f.sid
    + (if has_flag 0x0c f.first_byte then varint_format_len f.off else 0)
    + (if has_flag 0x0a f.first_byte then varint_format_len f.len else 0)
    + f.len

unfoldable pub max_data_size : MaxData → ℕ
max_data_size f = 1 + varint_format_len f.max_data

unfoldable pub max_stream_data_size : MaxStreamData → ℕ
max_stream_data_size f = 1 + varint_format_len f.sid + varint_format_len f.max_data

unfoldable pub max_streams_size : MaxStreams → ℕ
max_streams_size f = 1 + varint_format_len f.max_streams

unfoldable pub data_blocked_size : DataBlocked → ℕ
data_blocked_size f = 1 + varint_format_len f.max_data

unfoldable pub stream_data_blocked_size : StreamDataBlocked → ℕ
stream_data_blocked_size f = 1 + varint_format_len f.sid + varint_format_len f.max_data

unfoldable pub streams_blocked_size : StreamsBlocked → ℕ
streams_blocked_size f = 1 + varint_format_len f.max_streams

unfoldable pub new_connection_id_size : NewConnectionId → ℕ
new_connection_id_size f = 1 + varint_format_len f.seq + varint_format_len f.retire + 1 + f.len + 16

unfoldable pub retire_connection_id_size : RetireConnectionId → ℕ
retire_connection_id_size f = 1 + varint_format_len f.seq

unfoldable pub path_challenge_size : PathChallenge → ℕ
path_challenge_size f = 1 + 8

unfoldable pub path_response_size : PathResponse → ℕ
path_response_size f = 1 + 8

unfoldable pub kind_size : Option ℕ → ℕ
kind_size none = 0
kind_size (some k) = varint_format_len k

unfoldable pub connection_close_size : ConnectionClose → ℕ
connection_close_size f =
    1
    + varint_format_len f.err
    + (if f.first_byte == 0x1c then kind_size f.kind else 0)
    + varint_format_len f.len
    + f.len

unfoldable pub handshake_done_size : Plain → ℕ
handshake_done_size f = 1
