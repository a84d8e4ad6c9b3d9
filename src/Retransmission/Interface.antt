-- ===== src/Retransmission/Interface.antt =====
-- What src/modules/retransmission.c asks of the congestion module, by the macros of congestion.h.
use openquic.Common.{ℕ}

pub record Congestion : Type 1 where
  pub State : Type 0
  -- The number, the length, the bytes in flight and the time.
  pub on_acked : ℕ → ℕ → ℕ → ℕ → State → State
  -- The number, the length and the bytes in flight.
  pub on_lost : ℕ → ℕ → ℕ → State → State
  -- The time of receipt, the time of sending and the peer's delay.
  pub update : ℕ → ℕ → ℕ → State → State
  pub smoothed_rtt : State → ℕ
  pub pto : ℕ → State → ℕ
