-- ===== src/Frame/Fields.antt =====
-- The frames that hold varints only: each formatter, parser and sizer of src/format/frame.c
-- agree on every frame whose fields are in range.
use openquic.Common.{arith, true}
use openquic.Frame.{
  ResetStream, StopSending, MaxData, MaxStreamData, MaxStreams, DataBlocked, StreamsBlocked,
  RetireConnectionId, Plain,
}
use openquic.Frame.Parse
use openquic.Frame.Format
use openquic.Frame.Size
use openquic.Frame.Carry.{
  Framed, Framed-intro, Framed-byte, Carries-seq, Carries-last, Carries-varint, Reads-alloc,
}
use openquic.Frame.Wire.{◌>>=◌}
use openquic.Varint.RoundTrip.{IsVarint}

pub ping-Framed :
    (f : Plain)
    → Framed (Format.ping_format f) (Parse.ping_parse true) f.first_byte f (Size.ping_size f)
unfolding Format.ping_format Parse.ping_parse Size.ping_size
ping-Framed f = Framed-byte f.first_byte _ (λ rest. rw (Reads-alloc 0 rest, ◌>>=◌))

pub handshake_done-Framed :
    (f : Plain)
    → Framed
        (Format.handshake_done_format f)
        (Parse.handshake_done_parse true)
        f.first_byte
        f
        (Size.handshake_done_size f)
unfolding Format.handshake_done_format Parse.handshake_done_parse Size.handshake_done_size
handshake_done-Framed f = Framed-byte f.first_byte _ (λ rest. rw (Reads-alloc 0 rest, ◌>>=◌))

pub reset_stream-Framed :
    (f : ResetStream)
    → IsVarint f.sid
    → IsVarint f.app_err
    → IsVarint f.final_size
    → Framed
        (Format.reset_stream_format f)
        (Parse.reset_stream_parse true)
        f.first_byte
        f
        (Size.reset_stream_size f)
unfolding Format.reset_stream_format Parse.reset_stream_parse Size.reset_stream_size
reset_stream-Framed f h0 h1 h2 =
    Framed-intro f.first_byte _
      (Carries-seq _ _ _ _ (Carries-varint f.sid h0) (
        Carries-seq _ _ _ _ (Carries-varint f.app_err h1) (
          Carries-last _ (Carries-varint f.final_size h2)
            (λ rest. rw (Reads-alloc 3 rest, ◌>>=◌)))))
      (omega arith)

pub stop_sending-Framed :
    (f : StopSending)
    → IsVarint f.sid
    → IsVarint f.app_err
    → Framed
        (Format.stop_sending_format f)
        (Parse.stop_sending_parse true)
        f.first_byte
        f
        (Size.stop_sending_size f)
unfolding Format.stop_sending_format Parse.stop_sending_parse Size.stop_sending_size
stop_sending-Framed f h0 h1 =
    Framed-intro f.first_byte _
      (Carries-seq _ _ _ _ (Carries-varint f.sid h0)
        (Carries-last _ (Carries-varint f.app_err h1) (λ rest. rw (Reads-alloc 2 rest, ◌>>=◌))))
      (omega arith)

pub max_data-Framed :
    (f : MaxData)
    → IsVarint f.max_data
    → Framed
        (Format.max_data_format f)
        (Parse.max_data_parse true)
        f.first_byte
        f
        (Size.max_data_size f)
unfolding Format.max_data_format Parse.max_data_parse Size.max_data_size
max_data-Framed f h0 =
    Framed-intro f.first_byte _
      (Carries-last _ (Carries-varint f.max_data h0) (λ rest. rw (Reads-alloc 1 rest, ◌>>=◌)))
      (omega arith)

pub max_stream_data-Framed :
    (f : MaxStreamData)
    → IsVarint f.sid
    → IsVarint f.max_data
    → Framed
        (Format.max_stream_data_format f)
        (Parse.max_stream_data_parse true)
        f.first_byte
        f
        (Size.max_stream_data_size f)
unfolding Format.max_stream_data_format Parse.max_stream_data_parse Size.max_stream_data_size
max_stream_data-Framed f h0 h1 =
    Framed-intro f.first_byte _
      (Carries-seq _ _ _ _ (Carries-varint f.sid h0)
        (Carries-last _ (Carries-varint f.max_data h1) (λ rest. rw (Reads-alloc 2 rest, ◌>>=◌))))
      (omega arith)

pub max_streams-Framed :
    (f : MaxStreams)
    → IsVarint f.max_streams
    → Framed
        (Format.max_streams_format f)
        (Parse.max_streams_parse true)
        f.first_byte
        f
        (Size.max_streams_size f)
unfolding Format.max_streams_format Parse.max_streams_parse Size.max_streams_size
max_streams-Framed f h0 =
    Framed-intro f.first_byte _
      (Carries-last _ (Carries-varint f.max_streams h0) (λ rest. rw (Reads-alloc 1 rest, ◌>>=◌)))
      (omega arith)

pub data_blocked-Framed :
    (f : DataBlocked)
    → IsVarint f.max_data
    → Framed
        (Format.data_blocked_format f)
        (Parse.data_blocked_parse true)
        f.first_byte
        f
        (Size.data_blocked_size f)
unfolding Format.data_blocked_format Parse.data_blocked_parse Size.data_blocked_size
data_blocked-Framed f h0 =
    Framed-intro f.first_byte _
      (Carries-last _ (Carries-varint f.max_data h0) (λ rest. rw (Reads-alloc 1 rest, ◌>>=◌)))
      (omega arith)

pub streams_blocked-Framed :
    (f : StreamsBlocked)
    → IsVarint f.max_streams
    → Framed
        (Format.streams_blocked_format f)
        (Parse.streams_blocked_parse true)
        f.first_byte
        f
        (Size.streams_blocked_size f)
unfolding Format.streams_blocked_format Parse.streams_blocked_parse Size.streams_blocked_size
streams_blocked-Framed f h0 =
    Framed-intro f.first_byte _
      (Carries-last _ (Carries-varint f.max_streams h0) (λ rest. rw (Reads-alloc 1 rest, ◌>>=◌)))
      (omega arith)

pub retire_connection_id-Framed :
    (f : RetireConnectionId)
    → IsVarint f.seq
    → Framed
        (Format.retire_connection_id_format f)
        (Parse.retire_connection_id_parse true)
        f.first_byte
        f
        (Size.retire_connection_id_size f)
unfolding Format.retire_connection_id_format Parse.retire_connection_id_parse
    Size.retire_connection_id_size
retire_connection_id-Framed f h0 =
    Framed-intro f.first_byte _
      (Carries-last _ (Carries-varint f.seq h0) (λ rest. rw (Reads-alloc 1 rest, ◌>>=◌)))
      (omega arith)
