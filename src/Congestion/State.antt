-- ===== src/Congestion/State.antt =====
-- The state of src/modules/congestion.c for one path, and how it begins.
use openquic.Common.{ℕ, ◌*◌, ◌/◌, Bool, false, ◌&&◌, leb}

-- The settings of quic_config_t that congestion control reads.
pub record Config : Type 0 where
  pub initial_cwnd : ℕ
  pub min_cwnd : ℕ
  pub max_cwnd : ℕ
  pub disable_prr : Bool
  pub slowstart_large_reduction : Bool

-- quic_congestion_base_t
pub record Base : Type 0 where
  pub cwnd : ℕ
  pub acked : Bool
  pub largest_acked_num : ℕ
  pub largest_sent_num : ℕ
  pub lost : Bool
  pub at_loss_largest_sent_num : ℕ
  pub at_loss_in_slowstart : Bool
  pub lost_pkt_count : ℕ
  pub lost_bytes : ℕ

-- quic_congestion_slowstart_t
pub record Slowstart : Type 0 where
  pub threshold : ℕ
  pub end_num : ℕ
  pub last_sent_num : ℕ
  pub started : Bool
  pub min_rtt : ℕ
  pub rtt_sample_count : ℕ
  pub found_threshold : Bool
  pub min_exit_cwnd : ℕ

-- quic_congestion_cubic_t
pub record Cubic : Type 0 where
  pub epoch : ℕ
  pub max_cwnd : ℕ
  pub reno_cwnd : ℕ
  pub origin_cwnd_point : ℕ
  pub origin_time_point : ℕ
  pub acked_bytes : ℕ

-- quic_congestion_prr_t
pub record Prr : Type 0 where
  pub acked_count : ℕ
  pub acked_bytes : ℕ
  pub unacked_bytes : ℕ
  pub sent_bytes : ℕ

-- quic_congestion_tbp_t
pub record Tbp : Type 0 where
  pub budget : ℕ
  pub last_sent_time : ℕ

-- quic_congestion_rtt_t
pub record Rtt : Type 0 where
  pub min_rtt : ℕ
  pub smoothed_rtt : ℕ
  pub rttvar : ℕ
  pub latest_simple : ℕ

-- quic_congestion_status_store_t
pub record Status : Type 0 where
  pub base : Base
  pub slowstart : Slowstart
  pub cubic : Cubic
  pub prr : Prr
  pub tbp : Tbp
  pub rtt : Rtt

-- quic_congestion_base_init
unfoldable pub base_init : Config → Base
base_init cfg = record {
  cwnd = cfg.initial_cwnd;
  acked = false;
  largest_acked_num = 0;
  largest_sent_num = 0;
  lost = false;
  at_loss_largest_sent_num = 0;
  at_loss_in_slowstart = false;
  lost_pkt_count = 0;
  lost_bytes = 0;
}

-- quic_congestion_slowstart_init
unfoldable pub slowstart_init : Config → Slowstart
slowstart_init cfg = record {
  threshold = cfg.max_cwnd;
  end_num = 0;
  last_sent_num = 0;
  started = false;
  min_rtt = 0;
  rtt_sample_count = 0;
  found_threshold = false;
  min_exit_cwnd = 0;
}

-- quic_congestion_cubic_init
unfoldable pub cubic_init : Cubic
cubic_init = record {
  epoch = 0;
  max_cwnd = 0;
  reno_cwnd = 0;
  origin_cwnd_point = 0;
  origin_time_point = 0;
  acked_bytes = 0;
}

-- quic_congestion_prr_init
unfoldable pub prr_init : Prr
prr_init = record { acked_count = 0; acked_bytes = 0; unacked_bytes = 0; sent_bytes = 0 }

-- quic_congestion_rtt_init
unfoldable pub rtt_init : Rtt
rtt_init = record {
  min_rtt = 0;
  smoothed_rtt = 333 * 1000;
  rttvar = 333 * 1000 / 4;
  latest_simple = 0;
}

-- The status that quic_congestion_module_migrate makes for a new path. quic_congestion_tbp_init
-- takes the bandwidth of the path that was active before, which is `bandwidth`.
unfoldable pub status_init : Config → ℕ → Status
unfolding base_init slowstart_init cubic_init prr_init rtt_init
status_init cfg bandwidth = record {
  base = base_init cfg;
  slowstart = slowstart_init cfg;
  cubic = cubic_init;
  prr = prr_init;
  tbp = record { budget = bandwidth; last_sent_time = 0 };
  rtt = rtt_init;
}

-- quic_congestion_in_recovery
abbrev pub in_recovery : Base → Bool
in_recovery b = b.acked && b.lost && leb b.largest_acked_num b.at_loss_largest_sent_num
