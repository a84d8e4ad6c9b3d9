-- ===== src/Congestion/Window.antt =====
-- The congestion window of src/modules/congestion.c: its bounds, and what a loss does to it.
use openquic.Common.{
  ℕ, ◌*◌, ◌/◌, ◌^◌, ◌≤◌, ◌<◌, ◌≡◌, refl, inl, inr, arith, Bool, true, false, ◌&&◌, ltb, leb,
  if◌then◌else◌, Bool-cases, mul64,
}
use openquic.Congestion.State.{Config, Status}
use openquic.Congestion.Cubic.{cubic_on_lost}
use openquic.Congestion.Pace.{tbp_sent_packet}
use openquic.Congestion.{on_sent, lost_again, lost_first, reduce, on_lost, start_round, update}

-- Sending and a sample of the RTT leave the window.
pub on_sent-cwnd :
    (sent_time num bytes : ℕ) (unacked : Bool) (s : Status)
    → (on_sent sent_time num bytes unacked s).base.cwnd ≡ s.base.cwnd
unfolding on_sent tbp_sent_packet
on_sent-cwnd sent_time num bytes true s = refl
on_sent-cwnd sent_time num bytes false s = refl

pub update-cwnd :
    (recv_time sent_time delay : ℕ) (s : Status)
    → (update recv_time sent_time delay s).base.cwnd ≡ s.base.cwnd
unfolding update
update-cwnd recv_time sent_time delay s =
    elim (Bool-cases (leb s.slowstart.threshold s.base.cwnd)) [
      | inl over ↦ rw over refl
      | inr slow ↦ elim (Bool-cases (start_round s.slowstart).found_threshold) [
        | inl found ↦ rw (slow, found) refl
        | inr more ↦ rw (slow, more) refl
      ]
    ]

-- The first loss of an epoch, where the reduction by packets is off.
pub lost_first-cwnd :
    (cfg : Config) (unacked : ℕ) (s : Status)
    → cfg.slowstart_large_reduction ≡ false
    → (lost_first cfg unacked s).base.cwnd ≡ (
        if ltb (mul64 s.base.cwnd 7 / 10) cfg.min_cwnd
        then cfg.min_cwnd
        else mul64 s.base.cwnd 7 / 10)
unfolding lost_first reduce cubic_on_lost
lost_first-cwnd cfg unacked s e = rw e refl

pub lost_again-cwnd :
    (cfg : Config) (bytes : ℕ) (s : Status)
    → cfg.slowstart_large_reduction ≡ false
    → (lost_again cfg bytes s).base.cwnd ≡ s.base.cwnd
unfolding lost_again
lost_again-cwnd cfg bytes s e = elim (Bool-cases s.base.at_loss_in_slowstart) [
  | inl slow ↦ rw (e, slow) refl
  | inr other ↦ rw other refl
]

lost_first-epoch :
    (cfg : Config) (unacked : ℕ) (s : Status)
    → ((lost_first cfg unacked s).base.lost ≡ true)
      × ((lost_first cfg unacked s).base.at_loss_largest_sent_num ≡ s.base.largest_sent_num)
unfolding lost_first
lost_first-epoch cfg unacked s = (refl, refl)

-- Where slowstart_large_reduction is off and the window is below 2 ^ 60, the first loss of an
-- epoch takes the window to seven tenths, but not below the least window, and the loss of another
-- packet sent by then leaves it.
pub on_lost-reduces_once :
    (cfg : Config) (num bytes unacked other bytes' unacked' : ℕ) (s : Status)
    → cfg.slowstart_large_reduction ≡ false
    → (s.base.lost && leb num s.base.at_loss_largest_sent_num) ≡ false
    → s.base.cwnd < 2 ^ 60
    → other ≤ s.base.largest_sent_num
    → let s' = on_lost cfg num bytes unacked s in
      (s'.base.cwnd
        ≡ (if ltb (s.base.cwnd * 7 / 10) cfg.min_cwnd then cfg.min_cwnd else s.base.cwnd * 7 / 10))
      × ((on_lost cfg other bytes' unacked' s').base.cwnd ≡ s'.base.cwnd)
unfolding on_lost
on_lost-reduces_once cfg num bytes unacked other bytes' unacked' s e new b le =
    let (lost, at) = lost_first-epoch cfg unacked s in
    let same : ((lost_first cfg unacked s).base.lost
          && leb other (lost_first cfg unacked s).base.at_loss_largest_sent_num)
        ≡ true =
      ground arith in
    rw new (
      ground (arith, lost_first-cwnd cfg unacked s e),
      rw same (lost_again-cwnd cfg bytes' (lost_first cfg unacked s) e),
    )

-- Where slowstart_large_reduction is on, a later loss, in an epoch that began in slow start, of
-- more bytes than the window and fewer than 2 ^ 32 wraps the window to more than 2 ^ 63 bytes.
pub on_lost_wraps :
    (cfg : Config) (num bytes unacked : ℕ) (s : Status)
    → cfg.slowstart_large_reduction ≡ true
    → s.base.lost ≡ true
    → num ≤ s.base.at_loss_largest_sent_num
    → s.base.at_loss_in_slowstart ≡ true
    → s.base.cwnd < bytes
    → bytes < 2 ^ 32
    → s.slowstart.min_exit_cwnd < 2 ^ 60
    → 2 ^ 63 < (on_lost cfg num bytes unacked s).base.cwnd
unfolding on_lost lost_again
on_lost_wraps cfg num bytes unacked s e lost le slow h b m =
    let again : leb num s.base.at_loss_largest_sent_num ≡ true = ground arith in
    rw (e, lost, again, slow) (ground arith)
