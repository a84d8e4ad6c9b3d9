-- ===== src/Retransmission/Control.antt =====
-- src/modules/congestion.c as the congestion module that src/modules/retransmission.c calls. The
-- state is `none` from a division by 0 in CUBIC on.
use openquic.Common.{ℕ, Option, none, some}
use openquic.Common.Options.{◌>>=◌}
use openquic.Congestion.{on_acked as acked, on_lost as lost, update as updated}
use openquic.Congestion.State.{Config, Status}
use openquic.Congestion.Pace.{rtt_pto}
use openquic.Retransmission.Interface.{Congestion}

-- The function pointers that quic_congestion_module_init sets.
abbrev pub control : (ℕ → ℕ) → Config → Congestion
control time_point cfg = record {
  State = Option Status;
  on_acked = λ num len unacked time s. s >>= λ x. acked time_point cfg num len unacked time x;
  on_lost = λ num len unacked s. s >>= λ x. some (lost cfg num len unacked x);
  update = λ recv_time sent_time delay s. s >>= λ x. some (updated recv_time sent_time delay x);
  smoothed_rtt = λ s. elim s [ none ↦ 0 | some x ↦ x.rtt.smoothed_rtt ];
  pto = λ delay s. elim s [ none ↦ 0 | some x ↦ rtt_pto delay x.rtt ];
}
