-- ===== src/Congestion/Samples.antt =====
-- quic_congestion_rtt_update: what a sample does to the estimates.
use openquic.Common.{
  ℕ, ◌+◌, ◌-◌, ◌*◌, ◌/◌, ◌^◌, ◌≤◌, ◌<◌, ◌≡◌, ◌⊎◌, inl, inr, arith, false, leb, ltb, ◌==◌,
  Bool-cases, add64, mul64,
}
use openquic.Congestion.State.{Rtt}
use openquic.Congestion.Pace.{rtt_update}

-- The estimates after a sample of `latest`, of which the peer says that it waited `delay`.
pub record Sampled (latest delay : ℕ) (before after : Rtt) : Type 0 where
  pub least_le : after.min_rtt ≤ latest
  pub least_mono : after.min_rtt ≤ before.min_rtt
  pub least : (after.min_rtt ≡ latest) ⊎ (after.min_rtt ≡ before.min_rtt)
  pub adjusted_ge : after.min_rtt ≤ after.latest_simple
  pub adjusted_le : after.latest_simple ≤ latest
  pub adjusted_less : after.min_rtt + delay < latest → after.latest_simple + delay ≡ latest
  pub adjusted_same : latest ≤ after.min_rtt + delay → after.latest_simple ≡ latest
  pub average_ge : 8 * after.smoothed_rtt ≤ 7 * before.smoothed_rtt + after.latest_simple
  pub average_lt : 7 * before.smoothed_rtt + after.latest_simple < 8 * after.smoothed_rtt + 8
  pub variance_ge : 4 * after.rttvar ≤ 3 * before.rttvar + (latest - after.latest_simple)
  pub variance_lt : 3 * before.rttvar + (latest - after.latest_simple) < 4 * after.rttvar + 4
  pub smoothed_le :
      (after.smoothed_rtt ≤ before.smoothed_rtt) ⊎ (after.smoothed_rtt ≤ after.latest_simple)
  pub smoothed_ge :
      (before.smoothed_rtt ≤ after.smoothed_rtt) ⊎ (after.latest_simple ≤ after.smoothed_rtt)

average_le :
    (s a : ℕ)
    → s < 2 ^ 60
    → a < 2 ^ 60
    → (add64 (mul64 7 s) a / 8 ≤ s) ⊎ (add64 (mul64 7 s) a / 8 ≤ a)
average_le s a h k = elim (Bool-cases (leb a s)) [
  | inl e ↦ inl (ground arith)
  | inr e ↦ inr (ground arith)
]

average_ge :
    (s a : ℕ)
    → s < 2 ^ 60
    → a < 2 ^ 60
    → (s ≤ add64 (mul64 7 s) a / 8) ⊎ (a ≤ add64 (mul64 7 s) a / 8)
average_ge s a h k = elim (Bool-cases (leb a s)) [
  | inl e ↦ inr (ground arith)
  | inr e ↦ inl (ground arith)
]

-- After a later sample, where times, estimates and the variance are below 2 ^ 60 and the peer's
-- delay is below 2 ^ 62, the least RTT is the sample or what it was, whichever is less; the
-- peer's delay is taken off the sample just where more than the least RTT is left, so that the
-- result is from the least RTT to the sample; the smoothed RTT becomes the eighth of seven times
-- itself and that result, and so is between the two; and the variance becomes the quarter of
-- three times itself and what was taken off the sample, both rounded down.
pub rtt_update-Sampled :
    (recv_time send_time ack_delay : ℕ) (rtt : Rtt)
    → 0 < rtt.min_rtt
    → send_time ≤ recv_time
    → recv_time < 2 ^ 60
    → rtt.smoothed_rtt < 2 ^ 60
    → rtt.min_rtt < 2 ^ 60
    → rtt.rttvar < 2 ^ 60
    → ack_delay < 2 ^ 62
    → Sampled (recv_time - send_time) ack_delay rtt (rtt_update recv_time send_time ack_delay rtt)
unfolding rtt_update
rtt_update-Sampled recv_time send_time ack_delay rtt h k b0 b1 b2 b4 b3 =
    let later : (rtt.min_rtt == 0) ≡ false = ground arith in
    rw later (record {
      least_le = ground arith;
      least_mono = ground arith;
      least = elim (Bool-cases (ltb (recv_time - send_time) rtt.min_rtt)) [
        | inl lower ↦ inl (ground arith)
        | inr not_lower ↦ inr (ground arith)
      ];
      adjusted_ge = ground arith;
      adjusted_le = ground arith;
      adjusted_less = λ e. ground arith;
      adjusted_same = λ e. ground arith;
      average_ge = ground arith;
      average_lt = ground arith;
      variance_ge = ground arith;
      variance_lt = ground arith;
      smoothed_le = average_le rtt.smoothed_rtt _ b1 (ground arith);
      smoothed_ge = average_ge rtt.smoothed_rtt _ b1 (ground arith);
    })

-- Where the peer tells no delay, and the variance of the RTT is below 2 ^ 62, it shrinks by a
-- quarter with each later sample, however far the sample is from the smoothed RTT.
pub rttvar_decays :
    (recv_time send_time : ℕ) (rtt : Rtt)
    → 0 < rtt.min_rtt
    → rtt.rttvar < 2 ^ 62
    → (rtt_update recv_time send_time 0 rtt).rttvar ≡ 3 * rtt.rttvar / 4
unfolding rtt_update
rttvar_decays recv_time send_time rtt h b =
    let later : (rtt.min_rtt == 0) ≡ false = ground arith in rw later (ground arith)
