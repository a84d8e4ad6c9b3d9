-- ===== src/ConnFlowctrl/Window.antt =====
-- quic_conn_flowctrl_adjust_rwnd, where the bytes of an epoch were read soon.
use openquic.Common.{
  ℕ, zero, suc, ◌+◌, ◌/◌, ◌^◌, ◌≤◌, ◌<◌, ◌≡◌, refl, inl, inr, arith, Bool, true, false, not, ◌&&◌,
  ◌||◌, some, ltb, leb, ◌==◌, Bool-cases, add64, sub64, mul64,
}
use openquic.Common.Options.{◌>>=◌}
use openquic.ConnFlowctrl.{ConnFlowctrl, tune, adjust_rwnd, count_read, update_rwnd, read}

counted : (now bytes : ℕ) (m : ConnFlowctrl) → (count_read now bytes m).rwnd_size ≡ m.rwnd_size
unfolding count_read
counted now bytes m = elim (Bool-cases (m.read_off == 0)) [ inl e ↦ rw e refl | inr e ↦ rw e refl ]

tune_returns :
    (max_rwnd_size rtt now readed n : ℕ) (m : ConnFlowctrl)
    → 0 < n
    → (m' : ConnFlowctrl) × (tune max_rwnd_size rtt now readed n m ≡ some m')
unfolding tune
tune_returns max_rwnd_size rtt now readed zero m h = absurd (omega arith)
tune_returns max_rwnd_size rtt now readed (suc n) m h = (_, refl)

adjust_returns :
    (max_rwnd_size rtt now : ℕ) (m : ConnFlowctrl)
    → 0 < m.rwnd_size
    → (m' : ConnFlowctrl) × (adjust_rwnd max_rwnd_size rtt now m ≡ some m')
unfolding adjust_rwnd
adjust_returns max_rwnd_size rtt now m h =
    elim (Bool-cases (leb (sub64 m.read_off m.epoch_off) (m.rwnd_size / 2) || rtt == 0)) [
      | inl same ↦ (m, rw same refl)
      | inr more ↦
          let (m', e) =
            tune_returns max_rwnd_size rtt now (sub64 m.read_off m.epoch_off) m.rwnd_size m h in
          (m', rw (more, e) refl)
    ]

-- With a window that is not 0, quic_conn_flowctrl_read returns a state: it does not divide by 0.
pub read_returns :
    (max_rwnd_size rtt now bytes : ℕ) (m : ConnFlowctrl)
    → 0 < m.rwnd_size
    → (m' : ConnFlowctrl) × (read max_rwnd_size rtt now bytes m ≡ some m')
unfolding read
read_returns max_rwnd_size rtt now bytes m h =
    elim (Bool-cases (
      leb (sub64 (count_read now bytes m).rwnd (count_read now bytes m).read_off)
        (mul64 (count_read now bytes m).rwnd_size 3 / 4))) [
          | inl low ↦
              let (m', e) =
                adjust_returns max_rwnd_size rtt now (count_read now bytes m)
                  (omega (arith, counted now bytes m)) in
              (update_rwnd m', rw low (rw (e, ◌>>=◌) refl))
          | inr enough ↦ (count_read now bytes m, rw enough refl)
        ]

-- More than half of the window was read in an epoch that is short for it.
abbrev pub is_fast : ℕ → ℕ → ConnFlowctrl → Bool
is_fast rtt now m =
    let readed = sub64 m.read_off m.epoch_off in
    ltb (m.rwnd_size / 2) readed
    && not (rtt == 0)
    && ltb (sub64 now m.epoch_time) (mul64 (rtt / 4) readed / m.rwnd_size)

tune_halves :
    (max_rwnd_size rtt now readed n : ℕ) (m : ConnFlowctrl)
    → 0 < n
    → ltb (sub64 now m.epoch_time) (mul64 (rtt / 4) readed / n) ≡ true
    → m.read_off + n < 2 ^ 64
    → (m' : ConnFlowctrl) × (tune max_rwnd_size rtt now readed n m ≡ some m')
      × (m'.rwnd_size ≤ n / 2)
      × (m'.rwnd ≡ m'.read_off + m'.rwnd_size)
      × (m'.read_off ≡ m.read_off)
unfolding tune
tune_halves max_rwnd_size rtt now readed zero m h soon k = absurd (omega arith)
tune_halves max_rwnd_size rtt now readed (suc n) m h soon k =
    (_, refl, rw soon (ground arith), rw soon (ground arith), refl)

-- Where the connection's window is not 0 and more than half of it was read in an epoch that is
-- short for it, auto-tuning halves the window at least, however large conn_flowctrl_max_rwnd_size
-- is, and grants just that behind what was read.
pub adjust_rwnd_halves :
    (max_rwnd_size rtt now : ℕ) (m : ConnFlowctrl)
    → 0 < m.rwnd_size
    → is_fast rtt now m ≡ true
    → m.read_off + m.rwnd_size < 2 ^ 64
    → (m' : ConnFlowctrl) × (adjust_rwnd max_rwnd_size rtt now m ≡ some m')
      × (m'.rwnd_size ≤ m.rwnd_size / 2)
      × (m'.rwnd ≡ m'.read_off + m'.rwnd_size)
      × (m'.read_off ≡ m.read_off)
unfolding adjust_rwnd
adjust_rwnd_halves max_rwnd_size rtt now m h fast k =
    let goes : (leb (sub64 m.read_off m.epoch_off) (m.rwnd_size / 2) || rtt == 0) ≡ false =
      ground arith in
    rw goes (
      tune_halves max_rwnd_size rtt now (sub64 m.read_off m.epoch_off) m.rwnd_size m h
        (ground arith) k)

-- Where more is read than the connection's window allowed to be sent, and the window is below 2 ^
-- 62 and the offsets below 2 ^ 63, the difference wraps: the bytes are counted, but the window is
-- not moved and no MAX_DATA is called for.
pub read_past_window :
    (max_rwnd_size rtt now bytes : ℕ) (m : ConnFlowctrl)
    → m.rwnd < m.read_off + bytes
    → m.read_off + bytes < 2 ^ 63
    → m.rwnd_size < 2 ^ 62
    → (m' : ConnFlowctrl) × (read max_rwnd_size rtt now bytes m ≡ some m')
      × (m'.rwnd ≡ m.rwnd)
      × (m'.read_off ≡ m.read_off + bytes)
      × (m'.updated ≡ m.updated)
unfolding read count_read
read_past_window max_rwnd_size rtt now bytes m h k l = elim (Bool-cases (m.read_off == 0)) [
  | inl first ↦
      let enough : leb (sub64 m.rwnd (add64 0 bytes)) (mul64 m.rwnd_size 3 / 4) ≡ false =
        ground arith in
      rw (first, enough) (_, refl, refl, ground arith, refl)
  | inr later ↦
      let enough : leb (sub64 m.rwnd (add64 m.read_off bytes)) (mul64 m.rwnd_size 3 / 4) ≡ false =
        ground arith in
      rw (later, enough) (_, refl, refl, ground arith, refl)
]
