-- ===== src/Frame.antt =====
-- src/format/frame.h: the frames of a packet, a record for each C struct. The fields of
-- QUIC_FRAME_FIELDS that only link frames and name callbacks are left out; `first_byte` is kept.
use openquic.Common.{ℕ, List, Option}
pub mod Wire
pub mod Parse
pub mod Format
pub mod Size
pub mod Dispatch
pub mod Carry
pub mod Fields
pub mod Payloads
pub mod Acks
pub mod RoundTrip
mod Tests
pub mod Sound
pub mod Outcomes
pub mod Safety
pub mod Faults

-- quic_frame_t, which is also quic_frame_ping_t and quic_frame_handshake_done_t.
pub record Plain : Type 0 where
  pub first_byte : ℕ

-- quic_ack_range_t
pub record AckRange : Type 0 where
  pub gap : ℕ
  pub len : ℕ

-- The three counters of quic_frame_ack_t.
pub record Ect : Type 0 where
  pub ect0 : ℕ
  pub ect1 : ℕ
  pub ect_ce : ℕ

-- quic_frame_ack_t. `ect` is `none` where the counters were never set. `packet_type` and
-- `recv_time`, which are not on the wire, are left out.
pub record Ack : Type 0 where
  pub first_byte : ℕ
  pub largest_ack : ℕ
  pub delay : ℕ
  pub first_range : ℕ
  pub ect : Option Ect
  pub ranges : List AckRange

pub record ResetStream : Type 0 where
  pub first_byte : ℕ
  pub sid : ℕ
  pub app_err : ℕ
  pub final_size : ℕ

pub record StopSending : Type 0 where
  pub first_byte : ℕ
  pub sid : ℕ
  pub app_err : ℕ

pub record Crypto : Type 0 where
  pub first_byte : ℕ
  pub off : ℕ
  pub len : ℕ
  pub payload : List ℕ

pub record NewToken : Type 0 where
  pub first_byte : ℕ
  pub len : ℕ
  pub payload : List ℕ

pub record Stream : Type 0 where
  pub first_byte : ℕ
  pub sid : ℕ
  pub off : ℕ
  pub len : ℕ
  pub payload : List ℕ

pub record MaxData : Type 0 where
  pub first_byte : ℕ
  pub max_data : ℕ

pub record MaxStreamData : Type 0 where
  pub first_byte : ℕ
  pub sid : ℕ
  pub max_data : ℕ

pub record MaxStreams : Type 0 where
  pub first_byte : ℕ
  pub max_streams : ℕ

pub record DataBlocked : Type 0 where
  pub first_byte : ℕ
  pub max_data : ℕ

pub record StreamDataBlocked : Type 0 where
  pub first_byte : ℕ
  pub sid : ℕ
  pub max_data : ℕ

pub record StreamsBlocked : Type 0 where
  pub first_byte : ℕ
  pub max_streams : ℕ

-- `conn` holds the first `len` bytes of the C array of 20.
pub record NewConnectionId : Type 0 where
  pub first_byte : ℕ
  pub seq : ℕ
  pub retire : ℕ
  pub len : ℕ
  pub conn : List ℕ
  pub token : List ℕ

pub record RetireConnectionId : Type 0 where
  pub first_byte : ℕ
  pub seq : ℕ

-- quic_frame_path_challenge_t and quic_frame_path_response_t
pub record PathChallenge : Type 0 where
  pub first_byte : ℕ
  pub payload : List ℕ

pub record PathResponse : Type 0 where
  pub first_byte : ℕ
  pub payload : List ℕ

-- `kind` is the field `type`, `none` where it was never set.
pub record ConnectionClose : Type 0 where
  pub first_byte : ℕ
  pub err : ℕ
  pub kind : Option ℕ
  pub len : ℕ
  pub payload : List ℕ

-- A pointer to a frame, with the struct that it points at.
pub data Frame : Type 0 where
  ping : Plain → Frame
  ack : Ack → Frame
  reset_stream : ResetStream → Frame
  stop_sending : StopSending → Frame
  crypto : Crypto → Frame
  new_token : NewToken → Frame
  stream : Stream → Frame
  max_data : MaxData → Frame
  max_stream_data : MaxStreamData → Frame
  max_streams : MaxStreams → Frame
  data_blocked : DataBlocked → Frame
  stream_data_blocked : StreamDataBlocked → Frame
  streams_blocked : StreamsBlocked → Frame
  new_connection_id : NewConnectionId → Frame
  retire_connection_id : RetireConnectionId → Frame
  path_challenge : PathChallenge → Frame
  path_response : PathResponse → Frame
  connection_close : ConnectionClose → Frame
  handshake_done : Plain → Frame
