-- ===== src/ConnFlowctrl.antt =====
-- src/modules/conn_flowctrl.h and conn_flowctrl.c: the flow control of a connection. The settings
-- of the session are parameters, and so are the time and the smoothed RTT of the congestion module.
-- The mutex around `updated` is left out: each operation is one step.
use openquic.Common.{
  ℕ, zero, suc, ◌*◌, ◌/◌, Bool, true, false, ◌&&◌, ◌||◌, Option, none, some, ltb, leb, ◌==◌,
  if◌then◌else◌, add64, sub64, mul64,
}
use openquic.Common.Options.{◌>>=◌}
pub mod Window

-- quic_conn_flowctrl_module_t
pub record ConnFlowctrl : Type 0 where
  pub rwnd : ℕ
  pub rwnd_size : ℕ
  pub recv_off : ℕ
  pub read_off : ℕ
  pub swnd : ℕ
  pub sent_bytes : ℕ
  pub epoch_off : ℕ
  pub epoch_time : ℕ
  pub updated : Bool

-- quic_conn_flowctrl_module_init
unfoldable pub init : ℕ → ℕ → ℕ → ConnFlowctrl
init initial_rwnd max_rwnd_size initial_swnd = record {
  rwnd = initial_rwnd;
  rwnd_size = max_rwnd_size;
  recv_off = 0;
  read_off = 0;
  swnd = initial_swnd;
  sent_bytes = 0;
  epoch_off = 0;
  epoch_time = 0;
  updated = false;
}

-- quic_conn_flowctrl_increment_recv
unfoldable pub increment_recv : ℕ → ConnFlowctrl → ConnFlowctrl
increment_recv increment m = record m { recv_off = add64 m.recv_off increment }

-- quic_conn_flowctrl_update_swnd
unfoldable pub update_swnd : ℕ → ConnFlowctrl → ConnFlowctrl
update_swnd off m = if ltb m.swnd off then record m { swnd = off } else m

-- Lines 68 to 75 of quic_conn_flowctrl_adjust_rwnd. The window is halved if the bytes of the epoch
-- were read soon; `none` is the division by a window of 0.
unfoldable pub tune : ℕ → ℕ → ℕ → ℕ → ℕ → ConnFlowctrl → Option ConnFlowctrl
tune max_rwnd_size rtt now readed zero m = none
tune max_rwnd_size rtt now readed (suc n) m =
    let size =
      (if ltb (sub64 now m.epoch_time) (mul64 (rtt / 4) readed / suc n)
        then (if ltb max_rwnd_size (suc n / 2) then max_rwnd_size else suc n / 2)
        else suc n) in
    some (record m {
      rwnd_size = size;
      epoch_time = now;
      epoch_off = m.read_off;
      rwnd = add64 m.read_off size;
    })

-- quic_conn_flowctrl_adjust_rwnd
unfoldable pub adjust_rwnd : ℕ → ℕ → ℕ → ConnFlowctrl → Option ConnFlowctrl
unfolding tune
adjust_rwnd max_rwnd_size rtt now m =
    let readed = sub64 m.read_off m.epoch_off in
    if leb readed (m.rwnd_size / 2) || rtt == 0
    then some m
    else tune max_rwnd_size rtt now readed m.rwnd_size m

-- quic_conn_flowctrl_ensure_min_rwnd_size
unfoldable pub ensure_min_rwnd_size : ℕ → ℕ → ℕ → ConnFlowctrl → ConnFlowctrl
ensure_min_rwnd_size max_rwnd_size now size m =
    if ltb m.rwnd_size size
    then record m {
      rwnd_size = (if ltb size max_rwnd_size then size else max_rwnd_size);
      epoch_time = now;
      epoch_off = m.rwnd;
    }
    else m

-- quic_conn_flowctrl_update_rwnd
unfoldable pub update_rwnd : ConnFlowctrl → ConnFlowctrl
update_rwnd m = record m { updated = true }

-- The first half of quic_conn_flowctrl_read.
unfoldable pub count_read : ℕ → ℕ → ConnFlowctrl → ConnFlowctrl
count_read now bytes m =
    if m.read_off == 0
    then record m { epoch_off = 0; epoch_time = now; read_off = add64 0 bytes }
    else record m { read_off = add64 m.read_off bytes }

-- quic_conn_flowctrl_read
unfoldable pub read : ℕ → ℕ → ℕ → ℕ → ConnFlowctrl → Option ConnFlowctrl
unfolding count_read adjust_rwnd update_rwnd
read max_rwnd_size rtt now bytes m =
    let m' = count_read now bytes m in
    if leb (sub64 m'.rwnd m'.read_off) (mul64 m'.rwnd_size 3 / 4)
    then (do m'' ← adjust_rwnd max_rwnd_size rtt now m'; some (update_rwnd m''))
    else some m'

-- quic_conn_flowctrl_sent
unfoldable pub sent : ℕ → ConnFlowctrl → ConnFlowctrl
sent bytes m = record m { sent_bytes = add64 m.sent_bytes bytes }
