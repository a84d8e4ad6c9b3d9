-- ===== src/Congestion/Tests.antt =====
-- Witnesses for src/modules/congestion.c.
use openquic.Common.{ℕ, ◌+◌, ◌-◌, ◌≤◌, ◌≡◌, refl, arith, true, false}
use openquic.Congestion.State.{Config, Status, Rtt, status_init}
use openquic.Congestion.Pace.{rtt_update}
use openquic.Congestion.{on_lost}
use openquic.Congestion.Samples.{Sampled, rtt_update-Sampled}
use openquic.Congestion.Window.{on_lost-reduces_once}
use openquic.Congestion.Bounds.{start, loses, cwnd_le_max}

abbrev cfg : Config
cfg = record {
  initial_cwnd = 14600;
  min_cwnd = 2920;
  max_cwnd = 1460000;
  disable_prr = false;
  slowstart_large_reduction = false;
}

abbrev large : Config
large = record cfg { slowstart_large_reduction = true }

-- No cube root.
abbrev flat : ℕ → ℕ
flat n = 0

abbrev measured : Rtt
measured = record { min_rtt = 100; smoothed_rtt = 200; rttvar = 50; latest_simple = 150 }

-- Packets up to 9 were sent and up to 3 acknowledged, no loss.
abbrev running : Status
running = record (status_init cfg 0) {
  base = record {
    cwnd = 20000;
    acked = true;
    largest_acked_num = 3;
    largest_sent_num = 9;
    lost = false;
    at_loss_largest_sent_num = 0;
    at_loss_in_slowstart = false;
    lost_pkt_count = 0;
    lost_bytes = 0;
  };
}

-- 5 was lost.
abbrev recovering : Status
recovering = record running {
  base = record running.base {
    lost = true;
    at_loss_largest_sent_num = 9;
    at_loss_in_slowstart = true;
  };
  slowstart = record {
    threshold = 14000;
    end_num = 0;
    last_sent_num = 9;
    started = false;
    min_rtt = 0;
    rtt_sample_count = 0;
    found_threshold = false;
    min_exit_cwnd = 0;
  };
}

rtt_update-Sampled_example : Sampled (500 - 20) 30 measured (rtt_update 500 20 30 measured)
rtt_update-Sampled_example =
    rtt_update-Sampled 500 20 30 measured (omega arith) (omega arith) (omega arith) (omega arith)
      (omega arith) (omega arith) (omega arith)

on_lost-reduces_once_example :
    let s = on_lost cfg 5 1200 6000 running in
    (s.base.cwnd ≡ 14000) × ((on_lost cfg 7 1200 4800 s).base.cwnd ≡ s.base.cwnd)
on_lost-reduces_once_example =
    on_lost-reduces_once cfg 5 1200 6000 7 1200 4800 running refl refl (omega arith) (omega arith)

cwnd_le_max_example : (on_lost cfg 5 1200 6000 (status_init cfg 7)).base.cwnd ≤ 1460000 + 1459
cwnd_le_max_example =
    cwnd_le_max flat cfg (on_lost cfg 5 1200 6000 (status_init cfg 7)) refl (omega arith)
      (omega arith) (omega arith) (loses 5 1200 6000 (start 7))
