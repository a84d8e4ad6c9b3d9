-- ===== src/Stream.antt =====
-- src/modules/stream.c and stream.h: streams, a sending and a receiving half over the flow control of
-- the stream, and the sets of a connection that they are found in. The mutexes are left out: each
-- function is one step. Channels are events that a step reports.
use openquic.Common.{
  ℕ, ◌+◌, ◌-◌, ◌*◌, ◌%◌, Bool, true, false, not, ltb, ◌==◌, if◌then◌else◌, sub64, mul64,
}
pub mod Send
pub mod Generate
pub mod Ending
pub mod Recv
pub mod Deliver
pub mod Read
pub mod Sets
pub mod Lookup
mod Tests

-- quic_stream_id_transfer, of a `uint64_t` key; the sum cannot wrap behind the shift.
unfoldable pub id_transfer : Bool → Bool → ℕ → ℕ
id_transfer bidi is_client key =
    (if bidi then 0 else 2) + (if is_client then 0 else 1) + mul64 (sub64 key 1) 4

-- quic_stream_id_is_bidi and quic_stream_id_is_cli
unfoldable pub id_is_bidi : ℕ → Bool
id_is_bidi id = ltb (id % 4) 2

unfoldable pub id_is_cli : ℕ → Bool
id_is_cli id = id % 2 == 0

-- quic_stream_id_same_principal, of a session whose `is_cli` is given.
unfoldable pub id_same_principal : ℕ → Bool → Bool
unfolding id_is_cli
id_same_principal id is_cli = if id_is_cli id then is_cli else not is_cli
