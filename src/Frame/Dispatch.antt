-- ===== src/Frame/Dispatch.antt =====
-- quic_frame_parse_inner, quic_frame_format_inner and quic_frame_size_inner of src/format/frame.h,
-- over the tables that conf/frame.conf lists by the first byte.
use openquic.Common.{ℕ, Bool, [], ◌∷◌, Option, none, some, leb, ◌==◌, ◌&&◌}
use openquic.Common.{if◌then◌else◌, not_implemented}
use openquic.Frame.{Frame}
use openquic.Frame.Parse
use openquic.Frame.Format
use openquic.Frame.Size
use openquic.Frame.Wire.{Parser, err, fault, ◌>>=◌, pure, Writer, failed, wild}

-- The handlers that conf/frame.conf names, without `_parse`, `_format` or `_size`. The three
-- tables agree on every type.
pub data Codec : Type 0 where
  ping ack reset_stream stop_sending crypto new_token stream max_data max_stream_data : Codec
  max_streams data_blocked stream_data_blocked new_connection_id retire_connection_id : Codec
  path_challenge path_response connection_close handshake_done unknown : Codec

-- The types from 0x18 on.
unfoldable pub codec_high : ℕ → Codec
codec_high b =
    if b == 0x18
    then Codec.new_connection_id
    else if b == 0x19
    then Codec.retire_connection_id
    else if b == 0x1a
    then Codec.path_challenge
    else if b == 0x1b
    then Codec.path_response
    else if leb 0x1c b && leb b 0x1d
    then Codec.connection_close
    else if b == 0x1e
    then Codec.handshake_done
    else Codec.unknown

-- The tables' entry for a first byte.
unfoldable pub codec : ℕ → Codec
unfolding codec_high
codec b =
    if b == 0x01
    then Codec.ping
    else if b == 0x02
    then Codec.ack
    else if b == 0x03
    then Codec.ack
    else if b == 0x04
    then Codec.reset_stream
    else if b == 0x05
    then Codec.stop_sending
    else if b == 0x06
    then Codec.crypto
    else if b == 0x07
    then Codec.new_token
    else if leb 0x08 b && leb b 0x0f
    then Codec.stream
    else if b == 0x10
    then Codec.max_data
    else if b == 0x11
    then Codec.max_stream_data
    else if leb 0x12 b && leb b 0x13
    then Codec.max_streams
    else if leb 0x14 b && leb b 0x15
    then Codec.data_blocked
    else if leb 0x16 b && leb b 0x17
    then Codec.stream_data_blocked
    else codec_high b

-- A parser of one struct, as one of frames.
abbrev pub as_frame : {A : Type 0} → (A → Frame) → Parser A → Parser Frame
as_frame c p = p >>= λ f. pure (c f)

unfoldable pub parse_by : Codec → Bool → Parser Frame
parse_by Codec.ping granted = as_frame Frame.ping (Parse.ping_parse granted)
parse_by Codec.ack granted = as_frame Frame.ack (Parse.ack_parse granted)
parse_by Codec.reset_stream granted = as_frame Frame.reset_stream (Parse.reset_stream_parse granted)
parse_by Codec.stop_sending granted = as_frame Frame.stop_sending (Parse.stop_sending_parse granted)
parse_by Codec.crypto granted = as_frame Frame.crypto (Parse.crypto_parse granted)
parse_by Codec.new_token granted = as_frame Frame.new_token (Parse.new_token_parse granted)
parse_by Codec.stream granted = as_frame Frame.stream (Parse.stream_parse granted)
parse_by Codec.max_data granted = as_frame Frame.max_data (Parse.max_data_parse granted)
parse_by Codec.max_stream_data granted =
    as_frame Frame.max_stream_data (Parse.max_stream_data_parse granted)
parse_by Codec.max_streams granted = as_frame Frame.max_streams (Parse.max_streams_parse granted)
parse_by Codec.data_blocked granted = as_frame Frame.data_blocked (Parse.data_blocked_parse granted)
parse_by Codec.stream_data_blocked granted =
    as_frame Frame.stream_data_blocked (Parse.stream_data_blocked_parse granted)
parse_by Codec.new_connection_id granted =
    as_frame Frame.new_connection_id (Parse.new_connection_id_parse granted)
parse_by Codec.retire_connection_id granted =
    as_frame Frame.retire_connection_id (Parse.retire_connection_id_parse granted)
parse_by Codec.path_challenge granted =
    as_frame Frame.path_challenge (Parse.path_challenge_parse granted)
parse_by Codec.path_response granted =
    as_frame Frame.path_response (Parse.path_response_parse granted)
parse_by Codec.connection_close granted =
    as_frame Frame.connection_close (Parse.connection_close_parse granted)
parse_by Codec.handshake_done granted =
    as_frame Frame.handshake_done (Parse.handshake_done_parse granted)
parse_by Codec.unknown granted = λ bs. err not_implemented

-- quic_frame_parse_inner looks at the first byte, and leaves it to the parser.
unfoldable pub frame_parse : Bool → Parser Frame
frame_parse granted [] = fault
frame_parse granted (b ∷ bs) = parse_by (codec b) granted (b ∷ bs)

-- A formatter takes the frame for the struct of its own type; another struct is a wild cast.
unfoldable pub format_by : Codec → Frame → Writer
format_by Codec.ping (Frame.ping f) = Format.ping_format f
format_by Codec.ack (Frame.ack f) = Format.ack_format f
format_by Codec.reset_stream (Frame.reset_stream f) = Format.reset_stream_format f
format_by Codec.stop_sending (Frame.stop_sending f) = Format.stop_sending_format f
format_by Codec.crypto (Frame.crypto f) = Format.crypto_format f
format_by Codec.new_token (Frame.new_token f) = Format.new_token_format f
format_by Codec.stream (Frame.stream f) = Format.stream_format f
format_by Codec.max_data (Frame.max_data f) = Format.max_data_format f
format_by Codec.max_stream_data (Frame.max_stream_data f) = Format.max_stream_data_format f
format_by Codec.max_streams (Frame.max_streams f) = Format.max_streams_format f
format_by Codec.data_blocked (Frame.data_blocked f) = Format.data_blocked_format f
format_by Codec.stream_data_blocked (Frame.stream_data_blocked f) =
    Format.stream_data_blocked_format f
format_by Codec.new_connection_id (Frame.new_connection_id f) = Format.new_connection_id_format f
format_by Codec.retire_connection_id (Frame.retire_connection_id f) =
    Format.retire_connection_id_format f
format_by Codec.path_challenge (Frame.path_challenge f) = Format.path_challenge_format f
format_by Codec.path_response (Frame.path_response f) = Format.path_response_format f
format_by Codec.connection_close (Frame.connection_close f) = Format.connection_close_format f
format_by Codec.handshake_done (Frame.handshake_done f) = Format.handshake_done_format f
format_by Codec.unknown f = failed not_implemented
format_by c f = λ b. wild

unfoldable pub first_byte_of : Frame → ℕ
first_byte_of (Frame.ping f) = f.first_byte
first_byte_of (Frame.ack f) = f.first_byte
first_byte_of (Frame.reset_stream f) = f.first_byte
first_byte_of (Frame.stop_sending f) = f.first_byte
first_byte_of (Frame.crypto f) = f.first_byte
first_byte_of (Frame.new_token f) = f.first_byte
first_byte_of (Frame.stream f) = f.first_byte
first_byte_of (Frame.max_data f) = f.first_byte
first_byte_of (Frame.max_stream_data f) = f.first_byte
first_byte_of (Frame.max_streams f) = f.first_byte
first_byte_of (Frame.data_blocked f) = f.first_byte
first_byte_of (Frame.stream_data_blocked f) = f.first_byte
first_byte_of (Frame.streams_blocked f) = f.first_byte
first_byte_of (Frame.new_connection_id f) = f.first_byte
first_byte_of (Frame.retire_connection_id f) = f.first_byte
first_byte_of (Frame.path_challenge f) = f.first_byte
first_byte_of (Frame.path_response f) = f.first_byte
first_byte_of (Frame.connection_close f) = f.first_byte
first_byte_of (Frame.handshake_done f) = f.first_byte

-- quic_frame_format_inner
unfoldable pub frame_format : Frame → Writer
frame_format f = format_by (codec (first_byte_of f)) f

-- `none` stands for a size that is read out of another struct.
unfoldable pub size_by : Codec → Frame → Option ℕ
size_by Codec.ping (Frame.ping f) = some (Size.ping_size f)
size_by Codec.ack (Frame.ack f) = some (Size.ack_size f)
size_by Codec.reset_stream (Frame.reset_stream f) = some (Size.reset_stream_size f)
size_by Codec.stop_sending (Frame.stop_sending f) = some (Size.stop_sending_size f)
size_by Codec.crypto (Frame.crypto f) = some (Size.crypto_size f)
size_by Codec.new_token (Frame.new_token f) = some (Size.new_token_size f)
size_by Codec.stream (Frame.stream f) = some (Size.stream_size f)
size_by Codec.max_data (Frame.max_data f) = some (Size.max_data_size f)
size_by Codec.max_stream_data (Frame.max_stream_data f) = some (Size.max_stream_data_size f)
size_by Codec.max_streams (Frame.max_streams f) = some (Size.max_streams_size f)
size_by Codec.data_blocked (Frame.data_blocked f) = some (Size.data_blocked_size f)
size_by Codec.stream_data_blocked (Frame.stream_data_blocked f) =
    some (Size.stream_data_blocked_size f)
size_by Codec.new_connection_id (Frame.new_connection_id f) = some (Size.new_connection_id_size f)
size_by Codec.retire_connection_id (Frame.retire_connection_id f) =
    some (Size.retire_connection_id_size f)
size_by Codec.path_challenge (Frame.path_challenge f) = some (Size.path_challenge_size f)
size_by Codec.path_response (Frame.path_response f) = some (Size.path_response_size f)
size_by Codec.connection_close (Frame.connection_close f) = some (Size.connection_close_size f)
size_by Codec.handshake_done (Frame.handshake_done f) = some (Size.handshake_done_size f)
size_by Codec.unknown f = some 0
size_by c f = none

-- quic_frame_size_inner
unfoldable pub frame_size : Frame → Option ℕ
frame_size f = size_by (codec (first_byte_of f)) f
