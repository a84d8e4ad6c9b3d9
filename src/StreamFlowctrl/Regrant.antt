-- ===== src/StreamFlowctrl/Regrant.antt =====
-- quic_stream_flowctrl_instance_read grants the peer new credit.
use openquic.Common.{
  ℕ, zero, suc, ◌+◌, ◌-◌, ◌*◌, ◌/◌, ◌^◌, ◌≤◌, ◌<◌, ◌≡◌, refl, ◌⊎◌, inl, inr, arith, Bool, true,
  false, ◌||◌, Option, some, ltb, leb, ◌==◌, if◌then◌else◌, Bool-cases, add64, sub64, mul64, IsU64,
}
use openquic.Common.Options.{◌>>=◌}
use openquic.ConnFlowctrl
use openquic.ConnFlowctrl.{ConnFlowctrl}
use openquic.ConnFlowctrl.Window.{read_returns}
use openquic.StreamFlowctrl.{
  Config, StreamFlowctrl, is_soon, doubled, tune, adjust_rwnd, count_read, is_low, read,
}

-- What auto-tuning leaves of the stream `f`.
record Tuned (cfg : Config) (rtt now : ℕ) (f : StreamFlowctrl) (c : ConnFlowctrl)
    (r : Option (StreamFlowctrl × ConnFlowctrl)) : Type 0 where
  stream : StreamFlowctrl
  conn : ConnFlowctrl
  result : r ≡ some (stream, conn)
  same : stream.read_off ≡ f.read_off
  fin : stream.fin_flag ≡ f.fin_flag
  wider : f.rwnd_size ≤ stream.rwnd_size
  bounded : stream.rwnd_size ≤ cfg.stream_max_rwnd_size
  conn_size : 0 < conn.rwnd_size

ensure-pos :
    (max now size : ℕ) (c : ConnFlowctrl)
    → 0 < max
    → 0 < c.rwnd_size
    → 0 < (ConnFlowctrl.ensure_min_rwnd_size max now size c).rwnd_size
unfolding ConnFlowctrl.ensure_min_rwnd_size
ensure-pos max now size c m h = elim (Bool-cases (ltb c.rwnd_size size)) [
  | inl more ↦ rw more (ground arith)
  | inr less ↦ rw less h
]

tune-Tuned :
    (cfg : Config) (rtt now readed n : ℕ) (f : StreamFlowctrl) (c : ConnFlowctrl)
    → 0 < n
    → f.rwnd_size ≡ n
    → n ≤ cfg.stream_max_rwnd_size
    → cfg.stream_max_rwnd_size < 2 ^ 62
    → 0 < cfg.conn_max_rwnd_size
    → 0 < c.rwnd_size
    → Tuned cfg rtt now f c (tune cfg rtt now readed n f c)
unfolding tune
tune-Tuned cfg rtt now readed zero f c h e l m p q = absurd (omega arith)
tune-Tuned cfg rtt now readed (suc n) f c h e l m p q = record {
  stream = _;
  conn = _;
  result = refl;
  same = refl;
  fin = refl;
  wider = ground arith;
  bounded = ground arith;
  conn_size = widened (if is_soon rtt now readed (suc n) f then doubled cfg (suc n) else suc n);
}
  where
    widened :
        (size : ℕ)
        → 0
          < (if ltb (suc n) size
              then ConnFlowctrl.ensure_min_rwnd_size cfg.conn_max_rwnd_size now (mul64 size 3 / 4) c
              else c).rwnd_size
    widened size = elim (Bool-cases (ltb (suc n) size)) [
      | inl more ↦ rw more (ensure-pos cfg.conn_max_rwnd_size now (mul64 size 3 / 4) c p q)
      | inr less ↦ rw less q
    ]

adjust_rwnd-Tuned :
    (cfg : Config) (rtt now : ℕ) (f : StreamFlowctrl) (c : ConnFlowctrl)
    → 0 < f.rwnd_size
    → f.rwnd_size ≤ cfg.stream_max_rwnd_size
    → cfg.stream_max_rwnd_size < 2 ^ 62
    → 0 < cfg.conn_max_rwnd_size
    → 0 < c.rwnd_size
    → Tuned cfg rtt now f c (adjust_rwnd cfg rtt now f c)
unfolding adjust_rwnd
adjust_rwnd-Tuned cfg rtt now f c h l m p q =
    elim (Bool-cases (leb (sub64 f.read_off f.epoch_off) (f.rwnd_size / 2) || rtt == 0)) [
      | inl same ↦ rw same (record {
        stream = f;
        conn = c;
        result = refl;
        same = refl;
        fin = refl;
        wider = omega arith;
        bounded = l;
        conn_size = q;
      })
      | inr more ↦
          rw more
            (tune-Tuned cfg rtt now (sub64 f.read_off f.epoch_off) f.rwnd_size f c h refl l m p q)
    ]

-- What reading `bytes` leaves: the credit is never taken back, and unless the stream is finished the
-- peer has more than three quarters of the window left. A window that moved is announced.
pub record Regranted (bytes : ℕ) (f : StreamFlowctrl)
    (r : Option (StreamFlowctrl × ConnFlowctrl × Bool)) : Type 0 where
  pub after : StreamFlowctrl
  pub conn : ConnFlowctrl
  pub told : Bool
  pub result : r ≡ some (after, conn, told)
  pub readed : after.read_off ≡ f.read_off + bytes
  pub kept : f.rwnd ≤ after.rwnd
  pub open_lem : (after.fin_flag ≡ true) ⊎ (after.rwnd_size * 3 / 4 < after.rwnd - after.read_off)
  pub announced : (told ≡ true) ⊎ (after.rwnd ≡ f.rwnd)

-- The state after the bytes are counted.
record Counted (bytes : ℕ) (f g : StreamFlowctrl) : Type 0 where
  readed : g.read_off ≡ f.read_off + bytes
  size : g.rwnd_size ≡ f.rwnd_size
  wnd : g.rwnd ≡ f.rwnd

count_read-Counted :
    (now bytes : ℕ) (f : StreamFlowctrl)
    → f.read_off + bytes < 2 ^ 64
    → Counted bytes f (count_read now bytes f)
unfolding count_read
count_read-Counted now bytes f h = elim (Bool-cases (f.read_off == 0)) [
  | inl first ↦ rw first (record { readed = ground arith; size = refl; wnd = refl })
  | inr later ↦ rw later (record { readed = omega arith; size = refl; wnd = refl })
]

still_open :
    (g : StreamFlowctrl)
    → is_low g ≡ false
    → g.rwnd_size < 2 ^ 62
    → g.rwnd < 2 ^ 64
    → (g.fin_flag ≡ true) ⊎ (g.rwnd_size * 3 / 4 < g.rwnd - g.read_off)
still_open g e h w = elim (Bool-cases g.fin_flag) [
  | inl fin ↦ inl fin
  | inr more ↦ inr (ground arith)
]

-- Where the windows of the stream and of the connection are not 0, that of the stream is no
-- larger than its maximum, and sizes and offsets are far from wrapping, reading never fails,
-- never takes back credit and, unless the final size is known, leaves the peer credit for more
-- than three quarters of the window; where the limit moves, quic_stream_module_update_rwnd is
-- called.
pub read-Regranted :
    (cfg : Config) (rtt now bytes : ℕ) (f : StreamFlowctrl) (c : ConnFlowctrl)
    → 0 < f.rwnd_size
    → f.rwnd_size ≤ cfg.stream_max_rwnd_size
    → cfg.stream_max_rwnd_size < 2 ^ 62
    → 0 < cfg.conn_max_rwnd_size
    → 0 < c.rwnd_size
    → f.read_off + bytes < 2 ^ 63
    → IsU64 f.rwnd
    → Regranted bytes f (read cfg rtt now bytes f c)
unfolding read
read-Regranted cfg rtt now bytes f c h l m p q k w =
    let f1 : StreamFlowctrl = count_read now bytes f in
    let n : Counted bytes f f1 = count_read-Counted now bytes f (omega arith) in
    elim (Bool-cases (is_low f1)) [
      | inl low ↦
          let u : Tuned cfg rtt now f1 c (adjust_rwnd cfg rtt now f1 c) =
            adjust_rwnd-Tuned cfg rtt now f1 c (omega (arith, n.size)) (omega (arith, n.size)) m p
              q in
          let (c3, e3) = read_returns cfg.conn_max_rwnd_size rtt now bytes u.conn u.conn_size in
          record {
            after = record u.stream { rwnd = add64 u.stream.read_off u.stream.rwnd_size };
            conn = c3;
            told = true;
            result = rw low (rw (u.result, ◌>>=◌) (rw (e3, ◌>>=◌) refl));
            readed = omega (arith, u.same, n.readed);
            kept = ground (arith, u.same, u.wider, u.bounded, n.readed, n.size, n.wnd);
            open_lem = inr (omega (arith, u.same, u.wider, u.bounded, n.readed, n.size));
            announced = inl refl;
          }
      | inr enough ↦
          let (c3, e3) = read_returns cfg.conn_max_rwnd_size rtt now bytes c q in
          record {
            after = f1;
            conn = c3;
            told = false;
            result = rw enough (rw (e3, ◌>>=◌) refl);
            readed = n.readed;
            kept = omega (arith, n.wnd);
            open_lem = still_open f1 enough (omega (arith, n.size)) (omega (arith, n.wnd));
            announced = inr n.wnd;
          }
    ]
