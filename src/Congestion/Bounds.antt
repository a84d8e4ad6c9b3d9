-- ===== src/Congestion/Bounds.antt =====
-- The greatest congestion window of src/modules/congestion.c, and what an acknowledgement does to it.
use openquic.Common.{
  ℕ, ◌+◌, ◌^◌, ◌≤◌, ◌<◌, ◌≡◌, refl, inl, inr, arith, Bool, true, false, ◌&&◌, Option, none, some,
  ltb, leb, if◌then◌else◌, Bool-cases,
}
use mathlib.Core.Path.{subst}
use openquic.Congestion.State
use openquic.Congestion.State.{Config, Status, Base, Slowstart, status_init, base_init, in_recovery}
use openquic.Congestion.Cubic.{cubic_on_acked}
use openquic.Congestion.Window.{on_sent-cwnd, update-cwnd, lost_first-cwnd, lost_again-cwnd}
use openquic.Congestion.{
  on_sent, on_lost, cwnd_limited, increase_cwnd, note_acked, end_round, on_acked, update,
}

-- A window that is at most one segment over the greatest one.
abbrev pub Bounded : Config → Status → Type 0
Bounded cfg s = s.base.cwnd < cfg.max_cwnd + 1460

-- A result, if there is one, has such a window.
abbrev Allowed : Config → Option Status → Type 0
Allowed cfg none = Unit
Allowed cfg (some s) = Bounded cfg s

note_acked-cwnd : (num : ℕ) (b : Base) → (note_acked num b).cwnd ≡ b.cwnd
note_acked-cwnd num b = elim (Bool-cases b.acked) [
  | inl more ↦ elim (Bool-cases (ltb b.largest_acked_num num)) [
    | inl later ↦ rw (more, later) refl
    | inr earlier ↦ rw (more, earlier) refl
  ]
  | inr first ↦ rw first refl
]

end_round-cwnd : (num : ℕ) (s : Status) → (end_round num s).base.cwnd ≡ s.base.cwnd
end_round-cwnd num s =
    elim (Bool-cases (ltb s.base.cwnd s.slowstart.threshold && ltb s.slowstart.end_num num)) [
      | inl ends ↦ rw ends refl
      | inr goes_on ↦ rw goes_on refl
    ]

increase_cwnd-Allowed :
    (time_point : ℕ → ℕ) (cfg : Config) (acked_bytes unacked_bytes event_time : ℕ) (s : Status)
    → cfg.max_cwnd < 2 ^ 60
    → Bounded cfg s
    → Allowed cfg (increase_cwnd time_point cfg acked_bytes unacked_bytes event_time s)
unfolding increase_cwnd
increase_cwnd-Allowed time_point cfg acked_bytes unacked_bytes event_time s m h =
    elim (Bool-cases (cwnd_limited unacked_bytes s)) [
      | inr idle ↦ rw idle h
      | inl limited ↦ elim (Bool-cases (leb cfg.max_cwnd s.base.cwnd)) [
        | inl full ↦ rw (limited, full) h
        | inr low ↦ elim (Bool-cases (ltb s.base.cwnd s.slowstart.threshold)) [
          | inl slow ↦ rw (limited, low, slow) (ground arith)
          | inr fast ↦
              rw (limited, low, fast)
                (by_cubic (
                  cubic_on_acked time_point acked_bytes s.base.cwnd s.rtt.min_rtt event_time
                    s.cubic))
        ]
      ]
    ]
  where
    by_cubic :
        (r : Option (State.Cubic × ℕ))
        → Allowed cfg (elim r [
          | none ↦ none
          | some (cubic, cwnd) ↦ some (record s {
            cubic = cubic;
            base = record s.base { cwnd = (if ltb cfg.max_cwnd cwnd then cfg.max_cwnd else cwnd) };
          })
        ])
    by_cubic none = tt
    by_cubic (some (cubic, cwnd)) = ground arith

on_acked-Allowed :
    (time_point : ℕ → ℕ) (cfg : Config) (num acked_bytes unacked_bytes event_time : ℕ) (s : Status)
    → cfg.max_cwnd < 2 ^ 60
    → Bounded cfg s
    → Allowed cfg (on_acked time_point cfg num acked_bytes unacked_bytes event_time s)
unfolding on_acked
on_acked-Allowed time_point cfg num acked_bytes unacked_bytes event_time s m h =
    elim (Bool-cases (in_recovery (note_acked num s.base))) [
      | inl recovers ↦ elim (Bool-cases cfg.disable_prr) [
        | inl off ↦ rw (recovers, off) (omega (arith, note_acked-cwnd num s.base))
        | inr on ↦ rw (recovers, on) (omega (arith, note_acked-cwnd num s.base))
      ]
      | inr open_window ↦ rw open_window (
          rest (increase_cwnd time_point cfg acked_bytes unacked_bytes event_time s') (
            increase_cwnd-Allowed time_point cfg acked_bytes unacked_bytes event_time s' m
              (omega (arith, note_acked-cwnd num s.base))))
    ]
  where
    s' : Status
    s' = record s { base = note_acked num s.base }

    rest :
        (r : Option Status)
        → Allowed cfg r
        → Allowed cfg (elim r [ some s'' ↦ some (end_round num s'') | none ↦ none ])
    rest none a = tt
    rest (some t) a = omega (arith, end_round-cwnd num t)

on_lost-Bounded :
    (cfg : Config) (num bytes unacked : ℕ) (s : Status)
    → cfg.slowstart_large_reduction ≡ false
    → cfg.min_cwnd ≤ cfg.max_cwnd
    → cfg.max_cwnd < 2 ^ 60
    → Bounded cfg s
    → Bounded cfg (on_lost cfg num bytes unacked s)
unfolding on_lost
on_lost-Bounded cfg num bytes unacked s e l m h =
    elim (Bool-cases (s.base.lost && leb num s.base.at_loss_largest_sent_num)) [
      | inl again ↦ rw again (omega (arith, lost_again-cwnd cfg bytes s e))
      | inr new ↦ rw new (ground (arith, lost_first-cwnd cfg unacked s e))
    ]

-- The states that a path comes to, whatever is sent, acknowledged, lost and measured.
pub data Reached (time_point : ℕ → ℕ) (cfg : Config) : Status → Type 0 where
  start : (bandwidth : ℕ) → Reached time_point cfg (status_init cfg bandwidth)
  sends :
      {s : Status} (sent_time num bytes : ℕ) (unacked : Bool)
      → Reached time_point cfg s
      → Reached time_point cfg (on_sent sent_time num bytes unacked s)
  acks :
      {s s' : Status} (num bytes unacked event_time : ℕ)
      → on_acked time_point cfg num bytes unacked event_time s ≡ some s'
      → Reached time_point cfg s
      → Reached time_point cfg s'
  loses :
      {s : Status} (num bytes unacked : ℕ)
      → Reached time_point cfg s
      → Reached time_point cfg (on_lost cfg num bytes unacked s)
  measures :
      {s : Status} (recv_time sent_time delay : ℕ)
      → Reached time_point cfg s
      → Reached time_point cfg (update recv_time sent_time delay s)

Reached-Bounded :
    {time_point : ℕ → ℕ} {cfg : Config} {s : Status}
    → cfg.slowstart_large_reduction ≡ false
    → cfg.min_cwnd ≤ cfg.max_cwnd
    → cfg.initial_cwnd ≤ cfg.max_cwnd
    → cfg.max_cwnd < 2 ^ 60
    → Reached time_point cfg s
    → Bounded cfg s
unfolding status_init base_init
Reached-Bounded e l i m (start bandwidth) = omega arith
Reached-Bounded e l i m (sends {s} sent_time num bytes unacked r) =
    omega (arith, on_sent-cwnd sent_time num bytes unacked s, Reached-Bounded e l i m r)
Reached-Bounded {time_point} {cfg} e l i m (acks {s} {s'} num bytes unacked event_time q r) =
    subst (Allowed cfg) q
      (on_acked-Allowed time_point cfg num bytes unacked event_time s m (Reached-Bounded e l i m r))
Reached-Bounded {time_point} {cfg} e l i m (loses {s} num bytes unacked r) =
    on_lost-Bounded cfg num bytes unacked s e l m (Reached-Bounded e l i m r)
Reached-Bounded e l i m (measures {s} recv_time sent_time delay r) =
    omega (arith, update-cwnd recv_time sent_time delay s, Reached-Bounded e l i m r)

-- Where slowstart_large_reduction is off, the least and the first window are no more than
-- max_cwnd, and that is below 2 ^ 60, the window is never more than 1459 bytes over max_cwnd,
-- whatever is sent, acknowledged, lost and measured, and whatever the cube root gives.
pub cwnd_le_max :
    (time_point : ℕ → ℕ) (cfg : Config) (s : Status)
    → cfg.slowstart_large_reduction ≡ false
    → cfg.min_cwnd ≤ cfg.max_cwnd
    → cfg.initial_cwnd ≤ cfg.max_cwnd
    → cfg.max_cwnd < 2 ^ 60
    → Reached time_point cfg s
    → s.base.cwnd ≤ cfg.max_cwnd + 1459
cwnd_le_max time_point cfg s e l i m r = omega (arith, Reached-Bounded e l i m r)

still_recovers :
    (num : ℕ) (b : Base)
    → b.lost ≡ true
    → b.acked ≡ true
    → b.largest_acked_num ≤ b.at_loss_largest_sent_num
    → num ≤ b.at_loss_largest_sent_num
    → in_recovery (note_acked num b) ≡ true
still_recovers num b lost acked le num_le = elim (Bool-cases (ltb b.largest_acked_num num)) [
  | inl later ↦ rw (acked, later) (ground arith)
  | inr earlier ↦ rw (acked, earlier) (ground arith)
]

-- In recovery, while the packets that are acknowledged were sent before the loss, the window,
-- slow start and CUBIC stay as they are, and an acknowledgement never fails.
pub on_acked_in_recovery :
    (time_point : ℕ → ℕ) (cfg : Config) (num bytes unacked event_time : ℕ) (s : Status)
    → s.base.lost ≡ true
    → s.base.acked ≡ true
    → s.base.largest_acked_num ≤ s.base.at_loss_largest_sent_num
    → num ≤ s.base.at_loss_largest_sent_num
    → (s' : Status) × (on_acked time_point cfg num bytes unacked event_time s ≡ some s')
      × (s'.base.cwnd ≡ s.base.cwnd)
      × (s'.slowstart ≡ s.slowstart)
      × (s'.cubic ≡ s.cubic)
unfolding on_acked
on_acked_in_recovery time_point cfg num bytes unacked event_time s lost acked le num_le =
    let recovers : in_recovery (note_acked num s.base) ≡ true =
      still_recovers num s.base lost acked le num_le in
    elim (Bool-cases cfg.disable_prr) [
      | inl off ↦ rw (recovers, off) (_, refl, note_acked-cwnd num s.base, refl, refl)
      | inr on ↦ rw (recovers, on) (_, refl, note_acked-cwnd num s.base, refl, refl)
    ]
