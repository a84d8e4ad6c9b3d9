-- ===== src/Retransmission/Tests.antt =====
-- Runs of src/modules/retransmission.c, and witnesses.
use openquic.Common.{ℕ, sub64, [], ◌∷◌, ◌≡◌, refl, arith, true, false, none, some, All}
use openquic.Frame.{Ack}
use openquic.Congestion.State.{Config, status_init}
use openquic.Retransmission.Control.{control}
use openquic.Retransmission.Interface.{Congestion}
use openquic.Retransmission.{
  SentPacket, Retransmission, World, hits, acked_times, find_newly_acked, find_newly_lost,
  lost_delay,
}
use openquic.Retransmission.Walk.{held, acked_times-skips_last}
use openquic.Retransmission.Accounts.{IsAccounted, missed, recent, Once, find_newly_acked-settles}
use openquic.Retransmission.Losses.{find_newly_lost-settles}

abbrev cfg : Config
cfg = record {
  initial_cwnd = 14600;
  min_cwnd = 2920;
  max_cwnd = 1460000;
  disable_prr = false;
  slowstart_large_reduction = false;
}

-- The congestion control of the library, with no cube root.
abbrev cubic : Congestion
cubic = control (λ n. 0) cfg

-- 20 to 22, then 15 and 16, then 10.
abbrev three_ranges : Ack
three_ranges = record {
  first_byte = 0x02;
  largest_ack = 22;
  delay = 0;
  first_range = 2;
  ect = none;
  ranges = record { gap = 2; len = 1 } ∷ record { gap = 3; len = 0 } ∷ [];
}

acked_times_middle : acked_times 15 three_ranges ≡ 1
unfolding acked_times hits
acked_times_middle = refl

acked_times_last : acked_times 10 three_ranges ≡ 0
unfolding acked_times hits
acked_times_last = refl

acked_times-skips_last_example :
    acked_times 10 three_ranges ≡ held 10 20 22 (record { gap = 2; len = 1 } ∷ [])
acked_times-skips_last_example =
    acked_times-skips_last 10 three_ranges (record { gap = 2; len = 1 } ∷ [])
      (record { gap = 3; len = 0 }) refl

abbrev packet : ℕ → ℕ → SentPacket cubic ℕ
packet key sent_time = record {
  key = key;
  largest_ack = 0;
  sent_time = sent_time;
  pkt_len = 1200;
  included_unacked = true;
  frames = key ∷ [];
}

abbrev two_sent : Retransmission cubic ℕ
two_sent = record {
  sent_mem = packet 15 5 ∷ packet 17 600000 ∷ [];
  sent_pkt_count = 2;
  unacked_len = 2400;
  max_delay = 0;
  loss_time = 0;
  last_sent_ack_time = 600000;
  largest_ack = 0;
  alarm = 0;
  pto_count = 0;
  dropped = false;
  retransmission_queue = [];
}

abbrev world : World cubic ℕ
world = record { congestion = some (status_init cfg 0); acked = []; lost = []; deadlines = [] }

two_sent-IsAccounted : IsAccounted cubic ℕ two_sent
two_sent-IsAccounted = record { counted = refl; bytes = refl }

two_sent-Once : All (Once cubic ℕ three_ranges) two_sent.sent_mem
unfolding acked_times hits
two_sent-Once = ((omega arith, omega arith), ((omega arith, omega arith), tt))

find_newly_acked-settles_example :
    (m : Retransmission cubic ℕ) × (w : World cubic ℕ) × (find_newly_acked cubic ℕ
        (λ k. true)
        three_ranges
        700000
        two_sent
        world
      ≡ some (m, w))
    × (m.sent_mem ≡ missed cubic ℕ three_ranges two_sent.sent_mem)
    × IsAccounted cubic ℕ m
find_newly_acked-settles_example =
    find_newly_acked-settles cubic ℕ (λ k. true) three_ranges 700000 two_sent world (λ k. refl)
      two_sent-Once refl two_sent-IsAccounted

find_newly_lost-settles_example :
    let m = (find_newly_lost cubic ℕ (λ k. true) 1000000 two_sent world).0 in
    (m.sent_mem
      ≡ recent cubic ℕ
          (sub64 1000000 (lost_delay cubic ℕ (cubic.smoothed_rtt world.congestion)))
          two_sent.sent_mem)
    × IsAccounted cubic ℕ m
find_newly_lost-settles_example =
    find_newly_lost-settles cubic ℕ (λ k. true) 1000000 two_sent world (λ k. refl)
      (omega arith, (omega arith, tt)) refl two_sent-IsAccounted
