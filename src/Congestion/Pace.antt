-- ===== src/Congestion/Pace.antt =====
-- The RTT and the pacing of src/modules/congestion.c. `wait` stands for the time, by the floats of
-- libm, in which a missing budget is gained at a bandwidth.
use openquic.Common.{
  ℕ, zero, suc, ◌-◌, ◌/◌, ◌^◌, Bool, ltb, leb, ◌==◌, if◌then◌else◌, add64, sub64, mul64,
}
use openquic.Congestion.State

-- quic_congestion_rtt_update
unfoldable pub rtt_update : ℕ → ℕ → ℕ → State.Rtt → State.Rtt
rtt_update recv_time send_time ack_delay rtt =
    let latest = sub64 recv_time send_time in
    if rtt.min_rtt == 0
    then record rtt { min_rtt = latest; smoothed_rtt = latest; rttvar = latest / 2 }
    else (let least = (if ltb latest rtt.min_rtt then latest else rtt.min_rtt) in
        let adjusted =
          (if ltb (add64 least ack_delay) latest then sub64 latest ack_delay else latest) in
        record {
          min_rtt = least;
          latest_simple = adjusted;
          smoothed_rtt = add64 (mul64 7 rtt.smoothed_rtt) adjusted / 8;
          rttvar =
              add64 (mul64 3 rtt.rttvar)
                (if ltb adjusted latest then latest - adjusted else adjusted - latest)
              / 4;
        })

-- quic_congestion_rtt_pto
unfoldable pub rtt_pto : ℕ → State.Rtt → ℕ
rtt_pto max_ack_delay rtt =
    add64
      (add64 rtt.smoothed_rtt (if ltb 1000 (mul64 rtt.rttvar 4) then mul64 rtt.rttvar 4 else 1000))
      max_ack_delay

-- quic_congestion_tbp_bandwidth
unfoldable pub tbp_bandwidth : ℕ → ℕ → ℕ
tbp_bandwidth cwnd zero = 2 ^ 64 - 1
tbp_bandwidth cwnd (suc rtt) = mul64 (mul64 (mul64 cwnd 1000) 1000 / suc rtt) 5 / 4

-- quic_congestion_tbp_max_burst_size
unfoldable pub tbp_max_burst_size : State.Status → ℕ
unfolding tbp_bandwidth
tbp_max_burst_size s =
    let burst = mul64 2000 (tbp_bandwidth s.base.cwnd s.rtt.smoothed_rtt) / 1000000 in
    if ltb 14600 burst then burst else 14600

-- quic_congestion_tbp_budget
unfoldable pub tbp_budget : ℕ → State.Status → ℕ
unfolding tbp_max_burst_size
tbp_budget sent_time s =
    if s.tbp.last_sent_time == 0
    then tbp_max_burst_size s
    else (let gained =
          mul64 (tbp_bandwidth s.base.cwnd s.rtt.smoothed_rtt)
            (sub64 sent_time s.tbp.last_sent_time)
          / 1000000 in
        let budget = add64 s.tbp.budget gained in
        if ltb (tbp_max_burst_size s) budget then tbp_max_burst_size s else budget)

-- quic_congestion_tbp_sent_packet
unfoldable pub tbp_sent_packet : ℕ → ℕ → State.Status → State.Status
unfolding tbp_budget
tbp_sent_packet sent_time bytes s =
    let budget = tbp_budget sent_time s in
    record s {
      tbp = record {
        budget = (if ltb budget bytes then 0 else budget - bytes);
        last_sent_time = sent_time;
      };
    }

-- quic_congestion_tbp_next_send_time
unfoldable pub tbp_next_send_time : (ℕ → ℕ → ℕ) → State.Status → ℕ
tbp_next_send_time wait s =
    if leb 14600 s.tbp.budget
    then 0
    else (let delta = wait (14600 - s.tbp.budget) (tbp_bandwidth s.base.cwnd s.rtt.smoothed_rtt) in
        add64 s.tbp.last_sent_time (if ltb 1000 delta then delta else 1000))

-- quic_congestion_module_has_budget
unfoldable pub has_budget : ℕ → State.Status → Bool
has_budget now s = leb 14600 (tbp_budget now s)
