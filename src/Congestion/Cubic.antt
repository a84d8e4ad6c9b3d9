-- ===== src/Congestion/Cubic.antt =====
-- CUBIC and PRR of src/modules/congestion.c. `time_point` stands for the cube root of libm, scaled
-- and cut to an integer as in quic_congestion_cubic_on_acked.
use openquic.Common.{
  ℕ, zero, suc, ◌+◌, ◌-◌, ◌*◌, ◌/◌, ◌%◌, ◌^◌, Bool, true, ◌||◌, Option, none, some, ltb, leb, ◌==◌,
  if◌then◌else◌, add64, sub64, mul64,
}
use openquic.Congestion.State

-- The first half of quic_congestion_cubic_on_acked. `acked_bytes` has 32 bits.
unfoldable pub cubic_start : (ℕ → ℕ) → ℕ → ℕ → ℕ → State.Cubic → State.Cubic
cubic_start time_point acked_bytes cwnd event_time m =
    if m.epoch == 0
    then (if leb m.max_cwnd cwnd
        then record m {
          epoch = event_time;
          acked_bytes = acked_bytes % 2 ^ 32;
          reno_cwnd = cwnd;
          origin_time_point = 0;
          origin_cwnd_point = cwnd;
        }
        else record m {
          epoch = event_time;
          acked_bytes = acked_bytes % 2 ^ 32;
          reno_cwnd = cwnd;
          origin_time_point = time_point (sub64 m.max_cwnd cwnd);
          origin_cwnd_point = m.max_cwnd;
        })
    else record m { acked_bytes = (m.acked_bytes + acked_bytes) % 2 ^ 32 }

-- The window of the cubic curve.
unfoldable pub cubic_target : ℕ → ℕ → State.Cubic → ℕ
cubic_target delay_min event_time m =
    let elapsed = mul64 (sub64 (add64 event_time delay_min) m.epoch) 1024 / (1000 * 1000) in
    let offset =
      (if ltb m.origin_time_point elapsed
        then elapsed - m.origin_time_point
        else m.origin_time_point - elapsed) in
    let delta = mul64 (mul64 (mul64 (mul64 410 offset) offset) offset) 1460 / 2 ^ 40 in
    if ltb m.origin_time_point elapsed
    then add64 m.origin_cwnd_point delta
    else sub64 m.origin_cwnd_point delta

-- The line that moves `reno_cwnd`; `none` is a division by 0.
unfoldable pub reno_add : ℕ → ℕ → Option ℕ
reno_add acked_bytes reno_cwnd = elim (mul64 17 reno_cwnd) [
  | zero ↦ none
  | suc n ↦ some (add64 reno_cwnd (acked_bytes * 1460 * 9 % 2 ^ 32 / suc n))
]

-- quic_congestion_cubic_on_acked: the new state and window.
unfoldable pub cubic_on_acked : (ℕ → ℕ) → ℕ → ℕ → ℕ → ℕ → State.Cubic → Option (State.Cubic × ℕ)
unfolding cubic_start cubic_target reno_add
cubic_on_acked time_point acked_bytes cwnd delay_min event_time m =
    let m' = cubic_start time_point acked_bytes cwnd event_time m in
    let target = cubic_target delay_min event_time m' in
    let most = add64 cwnd (m'.acked_bytes / 2) in
    let ret = (if ltb target most then target else most) in
    elim (reno_add m'.acked_bytes m'.reno_cwnd) [
      | none ↦ none
      | some reno ↦
          some (record m' { reno_cwnd = reno; acked_bytes = 0 }, if ltb reno ret then ret else reno)
    ]

-- quic_congestion_cubic_on_lost
unfoldable pub cubic_on_lost : ℕ → State.Cubic → State.Cubic × ℕ
cubic_on_lost cwnd m = (
  record m {
    max_cwnd = (if ltb (add64 cwnd 1460) m.max_cwnd then mul64 cwnd 17 / 20 else cwnd);
    epoch = 0;
  },
  mul64 cwnd 7 / 10,
)

-- quic_congestion_prr_on_lost
unfoldable pub prr_on_lost : ℕ → State.Prr
prr_on_lost unacked_bytes = record {
  acked_count = 0;
  acked_bytes = 0;
  unacked_bytes = unacked_bytes;
  sent_bytes = 0;
}

-- quic_congestion_prr_allow_send
unfoldable pub prr_allow_send : State.Prr → ℕ → ℕ → ℕ → Bool
prr_allow_send m cwnd unacked_bytes threshold =
    if m.sent_bytes == 0 || ltb unacked_bytes 1460
    then true
    else if ltb unacked_bytes cwnd
    then ltb m.sent_bytes (add64 m.acked_bytes (mul64 m.acked_count 1460))
    else ltb (mul64 m.sent_bytes m.unacked_bytes) (mul64 m.acked_bytes threshold)
