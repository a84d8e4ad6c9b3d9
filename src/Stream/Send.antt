-- ===== src/Stream/Send.antt =====
-- The sending half of src/modules/stream.c, quic_send_stream_t. `reader` is what reader_buf and
-- reader_len still hold of the data that is written.
use openquic.Common.{
  ℕ, zero, suc, ◌+◌, ◌-◌, ◌^◌, ◌%◌, Bool, true, false, not, ◌&&◌, ◌||◌, bit_or, List, [], ◌∷◌,
  Option, none, some, length, take, drop, ltb, leb, ◌==◌, if◌then◌else◌, add64, Err, success,
  closed,
}
use openquic.Varint.{varint_format_len}
use openquic.Frame.{Frame, StreamDataBlocked}
use openquic.Frame
use openquic.StreamFlowctrl.{StreamFlowctrl, get_swnd, newly_blocked, sent, update_swnd}

-- quic_send_stream_t
pub record SendStream : Type 0 where
  pub reader : List ℕ
  pub off : ℕ
  pub deadline : ℕ
  pub sent_fin : Bool
  pub is_closed : Bool
  pub unacked_frames_count : ℕ

-- quic_send_stream_init
unfoldable pub init : SendStream
init = record {
  reader = [];
  off = 0;
  deadline = 0;
  sent_fin = false;
  is_closed = false;
  unacked_frames_count = 0;
}

-- quic_send_stream_empty
unfoldable pub is_empty : SendStream → Bool
is_empty s = length s.reader == 0

-- quic_send_stream_set_deadline
unfoldable pub set_deadline : ℕ → SendStream → SendStream
set_deadline deadline s = record s { deadline = deadline }

-- `header_len` of quic_stream_frame_capacity.
unfoldable pub header_len : ℕ → ℕ → Bool → ℕ → ℕ
header_len sid off fill payload_size =
    1
    + varint_format_len sid
    + (if not (off == 0) then varint_format_len off else 0)
    + (if not fill then varint_format_len payload_size else 0)

-- quic_stream_frame_capacity
unfoldable pub frame_capacity : ℕ → ℕ → ℕ → Bool → ℕ → ℕ
frame_capacity max_bytes sid off fill payload_size =
    if leb max_bytes (header_len sid off fill payload_size)
    then 0
    else max_bytes - header_len sid off fill payload_size

-- What quic_send_stream_generate returns and does: the frame, `*empty`, the new states, the frame it
-- gives to quic_framer_ctrl, and whether the writer is woken.
pub record Generated : Type 0 where
  pub frame : Option Frame.Stream
  pub empty : Bool
  pub send : SendStream
  pub flow : StreamFlowctrl
  pub ctrl : Option Frame
  pub woken : Bool

-- The STREAM_DATA_BLOCKED frame of a stream that has nothing to send.
unfoldable pub blocked : Bool → ℕ → SendStream → StreamFlowctrl → Generated
blocked granted key s f = elim ((newly_blocked f).0) [
  | none ↦ record {
    frame = none;
    empty = false;
    send = s;
    flow = (newly_blocked f).1;
    ctrl = none;
    woken = false;
  }
  | some max_data ↦ record {
    frame = none;
    empty = false;
    send = s;
    flow = (newly_blocked f).1;
    ctrl =
        (if granted
          then some (
              Frame.stream_data_blocked
                (record { first_byte = 0x15; sid = key; max_data = max_data }))
          else none);
    woken = false;
  }
]

-- The first byte of the frame.
unfoldable pub flags : Bool → Bool → Bool → ℕ
flags with_off with_len with_fin =
    let a : ℕ = (if with_off then bit_or 0x08 0x0c else 0x08) in
    let b : ℕ = (if with_len then bit_or a 0x0a else a) in if with_fin then bit_or b 0x09 else b

abbrev pub should_send_fin : SendStream → Bool
should_send_fin s = s.is_closed && not s.sent_fin

-- The frame of `n` bytes.
abbrev pub frame_of : ℕ → ℕ → Bool → Bool → List ℕ → SendStream → Frame.Stream
frame_of n key fill fin payload s = record {
  first_byte = flags (not (s.off == 0)) (not fill) fin;
  sid = key;
  off = s.off;
  len = n;
  payload = payload;
}

-- The branch of no data.
unfoldable pub made_empty : ℕ → ℕ → Bool → SendStream → StreamFlowctrl → Generated
made_empty n key fill s f = record {
  frame = some (frame_of n key fill (should_send_fin s) [] s);
  empty = true;
  send = record s {
    off = add64 s.off n;
    sent_fin = s.sent_fin || should_send_fin s;
    unacked_frames_count = (s.unacked_frames_count + 1) % 2 ^ 32;
  };
  flow = f;
  ctrl = none;
  woken = false;
}

-- Whether the branch with data ends the stream.
abbrev pub ends : ℕ → SendStream → Bool
ends n s = not (length (drop n s.reader) == 0) && should_send_fin s

-- The branch with data. The mutex is given up while the writer is woken; the model takes nothing to
-- happen then.
unfoldable pub made_some : ℕ → ℕ → Bool → SendStream → StreamFlowctrl → Generated
made_some n key fill s f = record {
  frame = some (frame_of n key fill (ends n s) (take n s.reader) s);
  empty = length (drop n s.reader) == 0 || ends n s;
  send = record s {
    reader = drop n s.reader;
    off = add64 s.off n;
    sent_fin = s.sent_fin || ends n s;
    unacked_frames_count = (s.unacked_frames_count + 1) % 2 ^ 32;
  };
  flow = sent n f;
  ctrl = none;
  woken = length (drop n s.reader) == 0;
}

-- The frame and what is left behind it.
unfoldable pub made : ℕ → ℕ → Bool → SendStream → StreamFlowctrl → Generated
made n key fill s f =
    if length s.reader == 0 then made_empty n key fill s f else made_some n key fill s f

-- The credit and the data, whichever is less. The code tests the data a second time.
unfoldable pub offered : SendStream → StreamFlowctrl → ℕ
offered s f =
    let size = (if ltb (length s.reader) (get_swnd f) then length s.reader else get_swnd f) in
    if ltb (length s.reader) size then length s.reader else size

-- The `payload_size` that is sent.
unfoldable pub payload_size : ℕ → ℕ → Bool → SendStream → StreamFlowctrl → ℕ
payload_size bytes key fill s f =
    let size = offered s f in
    let capa = frame_capacity bytes key s.off fill size in if ltb capa size then capa else size

-- quic_send_stream_generate. `for_blocked` and `for_frame` are malloc's answers.
unfoldable pub generate : Bool → Bool → ℕ → ℕ → Bool → SendStream → StreamFlowctrl → Generated
generate for_blocked for_frame key bytes fill s f =
    let n = payload_size bytes key fill s f in
    if n == 0 && not s.is_closed
    then blocked for_blocked key s f
    else if for_frame
    then made n key fill s f
    else record { frame = none; empty = false; send = s; flow = f; ctrl = none; woken = false }

-- quic_send_stream_close: the code, and whether the stream is made active and the writer woken.
unfoldable pub close : SendStream → Err × SendStream × Bool
close s = if s.is_closed then (closed, s, false) else (success, record s { is_closed = true }, true)

-- quic_send_stream_on_acked. The count is a `uint32_t`.
unfoldable pub on_acked : SendStream → SendStream
on_acked s = record s { unacked_frames_count = (s.unacked_frames_count + 2 ^ 32 - 1) % 2 ^ 32 }

-- quic_send_stream_handle_max_stream_data_frame, and whether the stream is made active.
unfoldable pub handle_max_stream_data : ℕ → SendStream → StreamFlowctrl → StreamFlowctrl × Bool
handle_max_stream_data max_data s f = (update_swnd max_data f, not (length s.reader == 0))

-- quic_stream_write_co: the data is set, and the loop waits for events. `now` is the time at each
-- wake-up; a state that the waiting finds is given with it.
pub data Writing : Type 0 where
  waits : SendStream → Writing
  finished : ℕ → SendStream → Writing

-- The tests at the head of the loop, with `len` the length of all the data.
unfoldable pub write_step : ℕ → ℕ → ℕ → SendStream → Writing
write_step now len pos s =
    if s.is_closed || (not (s.deadline == 0) && ltb s.deadline now) || length s.reader == 0
    then finished pos (record s { reader = [] })
    else waits s

-- The start of the loop, and its next round after a wake-up.
unfoldable pub write_start : ℕ → List ℕ → SendStream → Writing
unfolding write_step
write_start now src s = write_step now (length src) 0 (record s { reader = src })

unfoldable pub write_resume : ℕ → ℕ → SendStream → Writing
unfolding write_step
write_resume now len s = write_step now len (len - length s.reader) s

-- quic_stream_write: what is returned before the loop.
unfoldable pub write : Bool → SendStream → Err
write granted s =
    if s.is_closed then closed else if granted then success else openquic.Common.internal_error
