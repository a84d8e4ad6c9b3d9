-- ===== src/StreamFlowctrl.antt =====
-- src/modules/stream_flowctrl.c and stream_flowctrl.h: the flow control of one stream, which reports
-- to that of the connection. The settings of the session are a record, the smoothed RTT of the
-- congestion module and the time are parameters. `none` is the division by 0 of a window.
use openquic.Common.{
  ℕ, zero, suc, ◌+◌, ◌*◌, ◌/◌, Bool, true, false, not, ◌&&◌, ◌||◌, Option, none, some, ltb, leb,
  ◌==◌, if◌then◌else◌, add64, sub64, mul64,
}
use openquic.ConnFlowctrl
use openquic.ConnFlowctrl.{ConnFlowctrl}
use openquic.Common.Options.{◌>>=◌}
pub mod Unsent
pub mod Credit
pub mod Regrant
mod Tests

-- The settings of quic_config_t that flow control reads.
pub record Config : Type 0 where
  pub stream_initial_rwnd : ℕ
  pub stream_initial_swnd : ℕ
  pub stream_max_rwnd_size : ℕ
  pub conn_max_rwnd_size : ℕ

-- quic_stream_flowctrl_t
pub record StreamFlowctrl : Type 0 where
  pub rwnd : ℕ
  pub rwnd_size : ℕ
  pub recv_off : ℕ
  pub read_off : ℕ
  pub fin_flag : Bool
  pub swnd : ℕ
  pub sent_bytes : ℕ
  pub last_blocked_at : ℕ
  pub epoch_off : ℕ
  pub epoch_time : ℕ

-- quic_stream_flowctrl_instance_init
unfoldable pub init : Config → StreamFlowctrl
init cfg = record {
  rwnd = cfg.stream_initial_rwnd;
  rwnd_size = cfg.stream_initial_rwnd;
  recv_off = 0;
  read_off = 0;
  fin_flag = false;
  swnd = cfg.stream_initial_swnd;
  sent_bytes = 0;
  last_blocked_at = 0;
  epoch_off = 0;
  epoch_time = 0;
}

-- quic_stream_flowctrl_instance_update_rwnd
unfoldable pub update_rwnd :
    ℕ → Bool → StreamFlowctrl → ConnFlowctrl → StreamFlowctrl × ConnFlowctrl
update_rwnd off fin f c =
    if f.fin_flag && ((fin && not (off == f.recv_off)) || ltb f.recv_off off)
    then (f, c)
    else if leb off f.recv_off
    then (record f { fin_flag = f.fin_flag || fin }, c)
    else (
      record f { fin_flag = f.fin_flag || fin; recv_off = off },
      ConnFlowctrl.increment_recv (sub64 off f.recv_off) c,
    )

-- quic_stream_flowctrl_instance_update_swnd
unfoldable pub update_swnd : ℕ → StreamFlowctrl → StreamFlowctrl
update_swnd off f = if ltb f.swnd off then record f { swnd = off } else f

-- quic_stream_flowctrl_instance_abandon
unfoldable pub abandon : Config → ℕ → ℕ → StreamFlowctrl → ConnFlowctrl → Option ConnFlowctrl
abandon cfg rtt now f c =
    let unread = sub64 f.recv_off f.read_off in
    if ltb 0 unread then ConnFlowctrl.read cfg.conn_max_rwnd_size rtt now unread c else some c

-- quic_stream_flowctrl_instance_get_swnd
unfoldable pub get_swnd : StreamFlowctrl → ℕ
get_swnd f = if ltb f.swnd f.sent_bytes then 0 else sub64 f.swnd f.sent_bytes

-- quic_stream_flowctrl_instance_sent
unfoldable pub sent : ℕ → StreamFlowctrl → StreamFlowctrl
sent bytes f = record f { sent_bytes = add64 f.sent_bytes bytes }

-- Whether the bytes of the epoch were read so soon that the window of `size` is doubled.
abbrev pub is_soon : ℕ → ℕ → ℕ → ℕ → StreamFlowctrl → Bool
is_soon rtt now readed size f = ltb (sub64 now f.epoch_time) (mul64 (mul64 rtt 4) readed / size)

-- The window after that.
abbrev pub doubled : Config → ℕ → ℕ
doubled cfg size =
    if ltb cfg.stream_max_rwnd_size (mul64 size 2) then cfg.stream_max_rwnd_size else mul64 size 2

-- The part of quic_stream_flowctrl_adjust_rwnd behind its return.
unfoldable pub tune :
    Config → ℕ → ℕ → ℕ → ℕ → StreamFlowctrl → ConnFlowctrl → Option (StreamFlowctrl × ConnFlowctrl)
tune cfg rtt now readed zero f c = none
tune cfg rtt now readed (suc n) f c =
    let size = (if is_soon rtt now readed (suc n) f then doubled cfg (suc n) else suc n) in
    let c' =
      (if ltb (suc n) size
        then ConnFlowctrl.ensure_min_rwnd_size cfg.conn_max_rwnd_size now (mul64 size 3 / 4) c
        else c) in
    some (
      record f {
        rwnd_size = size;
        epoch_time = now;
        epoch_off = f.read_off;
        rwnd = add64 f.read_off size;
      },
      c',
    )

-- quic_stream_flowctrl_adjust_rwnd
unfoldable pub adjust_rwnd :
    Config → ℕ → ℕ → StreamFlowctrl → ConnFlowctrl → Option (StreamFlowctrl × ConnFlowctrl)
unfolding tune
adjust_rwnd cfg rtt now f c =
    let readed = sub64 f.read_off f.epoch_off in
    if leb readed (f.rwnd_size / 2) || rtt == 0
    then some (f, c)
    else tune cfg rtt now readed f.rwnd_size f c

-- The first part of quic_stream_flowctrl_instance_read.
unfoldable pub count_read : ℕ → ℕ → StreamFlowctrl → StreamFlowctrl
count_read now bytes f =
    if f.read_off == 0
    then record f { epoch_off = 0; epoch_time = now; read_off = add64 0 bytes }
    else record f { read_off = add64 f.read_off bytes }

-- Whether the peer has so little credit left that it is given more.
abbrev pub is_low : StreamFlowctrl → Bool
is_low f =
    not f.fin_flag
    && (leb f.rwnd f.read_off || leb (sub64 f.rwnd f.read_off) (mul64 f.rwnd_size 3 / 4))

-- quic_stream_flowctrl_instance_read: the new states, and whether quic_stream_module_update_rwnd is
-- called.
unfoldable pub read :
    Config
    → ℕ
    → ℕ
    → ℕ
    → StreamFlowctrl
    → ConnFlowctrl
    → Option (StreamFlowctrl × ConnFlowctrl × Bool)
unfolding count_read adjust_rwnd
read cfg rtt now bytes f c =
    let f1 = count_read now bytes f in
    if is_low f1
    then (do
      (f2, c2) ← adjust_rwnd cfg rtt now f1 c
      c3 ← ConnFlowctrl.read cfg.conn_max_rwnd_size rtt now bytes c2
      some (record f2 { rwnd = add64 f2.read_off f2.rwnd_size }, c3, true))
    else (do c3 ← ConnFlowctrl.read cfg.conn_max_rwnd_size rtt now bytes c; some (f1, c3, false))

-- quic_stream_flowctrl_instance_newly_blocked: the limit, where the stream is newly blocked.
unfoldable pub newly_blocked : StreamFlowctrl → Option ℕ × StreamFlowctrl
unfolding get_swnd
newly_blocked f =
    if not (get_swnd f == 0) || f.swnd == f.last_blocked_at
    then (none, f)
    else (some f.swnd, record f { last_blocked_at = f.swnd })
