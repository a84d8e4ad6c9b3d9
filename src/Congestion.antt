-- ===== src/Congestion.antt =====
-- src/modules/congestion.c and congestion.h: congestion control of the active path.
use openquic.Common.{
  ℕ, zero, suc, ◌+◌, ◌-◌, ◌*◌, ◌/◌, ◌%◌, ◌^◌, Bool, true, false, not, ◌&&◌, ◌||◌, Option, none,
  some, ltb, leb, ◌==◌, if◌then◌else◌, add64, sub64, mul64,
}
use openquic.Congestion.State
use openquic.Congestion.State.{Config, Status, Base, Slowstart, in_recovery}
use openquic.Congestion.Cubic.{cubic_on_acked, cubic_on_lost, prr_on_lost, prr_allow_send}
use openquic.Congestion.Pace.{rtt_update, tbp_sent_packet}
pub mod State
pub mod Cubic
pub mod Pace
pub mod Samples
pub mod Window
pub mod Bounds
mod Tests

-- quic_congestion_module_on_sent
unfoldable pub on_sent : ℕ → ℕ → ℕ → Bool → Status → Status
on_sent sent_time num sent_bytes included_unacked s =
    let s' = tbp_sent_packet sent_time sent_bytes s in
    if not included_unacked then s' else record s' {
      prr =
          (if in_recovery s'.base
            then record s'.prr { sent_bytes = add64 s'.prr.sent_bytes sent_bytes }
            else s'.prr);
      base = record s'.base { largest_sent_num = num };
      slowstart = record s'.slowstart { last_sent_num = num };
    }

-- A loss in the epoch of an earlier one.
unfoldable pub lost_again : Config → ℕ → Status → Status
lost_again cfg lost_bytes s =
    if not s.base.at_loss_in_slowstart
    then s
    else (let base = record s.base {
      lost_pkt_count = add64 s.base.lost_pkt_count 1;
      lost_bytes = add64 s.base.lost_bytes lost_bytes;
    } in
        if not cfg.slowstart_large_reduction
        then record s { base = base }
        else (let less = sub64 s.base.cwnd lost_bytes in
            let cwnd =
              (if ltb less s.slowstart.min_exit_cwnd then s.slowstart.min_exit_cwnd else less) in
            record s {
              base = record base { cwnd = cwnd };
              slowstart = record s.slowstart { threshold = cwnd };
            }))

-- The window at the first loss of an epoch, before it is raised to the least one, with the state
-- of slow start and of CUBIC.
unfoldable pub reduce : Config → Bool → Status → Slowstart × State.Cubic × ℕ
reduce cfg in_slowstart s =
    if cfg.slowstart_large_reduction && in_slowstart
    then (
      (if leb (mul64 2 cfg.initial_cwnd) s.base.cwnd
          then record s.slowstart { min_exit_cwnd = s.base.cwnd / 2 }
          else s.slowstart),
      s.cubic,
      sub64 s.base.cwnd 1460,
    )
    else (let (cubic, cwnd) = cubic_on_lost s.base.cwnd s.cubic in (s.slowstart, cubic, cwnd))

-- The first loss of an epoch.
unfoldable pub lost_first : Config → ℕ → Status → Status
unfolding reduce
lost_first cfg unacked_bytes s =
    let in_slowstart = ltb s.base.cwnd s.slowstart.threshold in
    let (slowstart, cubic, cwnd) = reduce cfg in_slowstart s in
    record s {
      base = record s.base {
        at_loss_in_slowstart = in_slowstart;
        lost_pkt_count =
            (if in_slowstart then add64 s.base.lost_pkt_count 1 else s.base.lost_pkt_count);
        cwnd = (if ltb cwnd cfg.min_cwnd then cfg.min_cwnd else cwnd);
        lost = true;
        at_loss_largest_sent_num = s.base.largest_sent_num;
      };
      slowstart = record slowstart { threshold = cwnd };
      cubic = cubic;
      prr = (if cfg.disable_prr then s.prr else prr_on_lost unacked_bytes);
    }

-- quic_congestion_module_on_lost
unfoldable pub on_lost : Config → ℕ → ℕ → ℕ → Status → Status
unfolding lost_again lost_first
on_lost cfg num lost_bytes unacked_bytes s =
    if s.base.lost && leb num s.base.at_loss_largest_sent_num
    then lost_again cfg lost_bytes s
    else lost_first cfg unacked_bytes s

-- quic_congestion_module_allow_send
unfoldable pub allow_send : Config → ℕ → Status → Bool
allow_send cfg unacked_bytes s =
    if not cfg.disable_prr && in_recovery s.base
    then prr_allow_send s.prr s.base.cwnd unacked_bytes s.slowstart.threshold
    else ltb unacked_bytes s.base.cwnd

-- quic_congestion_module_cwnd_limited
abbrev pub cwnd_limited : ℕ → Status → Bool
cwnd_limited unacked_bytes s =
    leb s.base.cwnd unacked_bytes
    || (ltb s.base.cwnd s.slowstart.threshold && ltb (s.base.cwnd / 2) unacked_bytes)
    || leb (s.base.cwnd - unacked_bytes) (3 * 1460)

-- quic_congestion_module_increase_cwnd; `none` is a division by 0 in CUBIC.
unfoldable pub increase_cwnd : (ℕ → ℕ) → Config → ℕ → ℕ → ℕ → Status → Option Status
increase_cwnd time_point cfg acked_bytes unacked_bytes event_time s =
    if not (cwnd_limited unacked_bytes s)
    then some (record s { cubic = record s.cubic { epoch = 0 } })
    else if leb cfg.max_cwnd s.base.cwnd
    then some s
    else if ltb s.base.cwnd s.slowstart.threshold
    then some (record s { base = record s.base { cwnd = add64 s.base.cwnd 1460 } })
    else elim (cubic_on_acked time_point acked_bytes s.base.cwnd s.rtt.min_rtt event_time s.cubic) [
      | none ↦ none
      | some (cubic, cwnd) ↦ some (record s {
        cubic = cubic;
        base = record s.base { cwnd = (if ltb cfg.max_cwnd cwnd then cfg.max_cwnd else cwnd) };
      })
    ]

-- The first test of quic_congestion_module_on_acked.
abbrev pub note_acked : ℕ → Base → Base
note_acked num b =
    if not b.acked
    then record b { acked = true; largest_acked_num = num }
    else if ltb b.largest_acked_num num
    then record b { largest_acked_num = num }
    else b

-- Its last test.
abbrev pub end_round : ℕ → Status → Status
end_round num s =
    if ltb s.base.cwnd s.slowstart.threshold && ltb s.slowstart.end_num num
    then record s { slowstart = record s.slowstart { started = false } }
    else s

-- quic_congestion_module_on_acked
unfoldable pub on_acked : (ℕ → ℕ) → Config → ℕ → ℕ → ℕ → ℕ → Status → Option Status
unfolding increase_cwnd
on_acked time_point cfg num acked_bytes unacked_bytes event_time s =
    let s' = record s { base = note_acked num s.base } in
    if in_recovery s'.base
    then some (
        if cfg.disable_prr then s' else record s' {
          prr = record s'.prr {
            acked_bytes = add64 s'.prr.acked_bytes acked_bytes;
            acked_count = add64 s'.prr.acked_count 1;
          };
        })
    else elim (increase_cwnd time_point cfg acked_bytes unacked_bytes event_time s') [
      | some s'' ↦ some (end_round num s'')
      | none ↦ none
    ]

-- The growth of the RTT by which slow start ends.
abbrev pub inc_threhold : ℕ → ℕ
inc_threhold min_rtt =
    let inc = (if ltb (min_rtt / 8) 16000 then min_rtt / 8 else 1600) in
    if ltb inc 4000 then 4000 else inc

-- The sample that quic_congestion_module_update counts, of 32 bits.
abbrev pub count_sample : Status → Slowstart
count_sample s =
    let w = s.slowstart in
    let n = (w.rtt_sample_count + 1) % 2 ^ 32 in
    let least =
      (if leb n 8 && (w.min_rtt == 0 || ltb s.rtt.latest_simple w.min_rtt)
        then s.rtt.latest_simple
        else w.min_rtt) in
    record w {
      rtt_sample_count = n;
      min_rtt = least;
      found_threshold = n == 8 && ltb (add64 s.rtt.min_rtt (inc_threhold s.rtt.min_rtt)) least;
    }

-- The start of a round of slow start.
abbrev pub start_round : Slowstart → Slowstart
start_round w =
    if w.started
    then w
    else record w { started = true; end_num = w.last_sent_num; min_rtt = 0; rtt_sample_count = 0 }

-- quic_congestion_module_update
unfoldable pub update : ℕ → ℕ → ℕ → Status → Status
update recv_time sent_time delay s =
    let s1 = record s { rtt = rtt_update recv_time sent_time delay s.rtt } in
    if leb s1.slowstart.threshold s1.base.cwnd
    then s1
    else (let s2 = record s1 { slowstart = start_round s1.slowstart } in
        if s2.slowstart.found_threshold
        then record s2 { slowstart = record s2.slowstart { threshold = s2.base.cwnd } }
        else (let w = count_sample s2 in
            record s2 {
              slowstart =
                  (if leb 16 (s2.base.cwnd / 1460) && w.found_threshold
                    then record w { threshold = s2.base.cwnd }
                    else w);
            }))
