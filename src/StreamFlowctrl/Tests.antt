-- ===== src/StreamFlowctrl/Tests.antt =====
-- Witnesses for src/modules/stream_flowctrl.c.
use openquic.Common.{ℕ, ◌%◌, ◌^◌, ◌≤◌, ◌≡◌, refl, arith, true, false, [], ◌∷◌, All, some, IsU64}
use openquic.ConnFlowctrl.{ConnFlowctrl}
use openquic.StreamFlowctrl.{Config, StreamFlowctrl, init, sent, newly_blocked, get_swnd, read}
use openquic.StreamFlowctrl.Credit.{
  start, sends, sent_le_swnd, received_by, Word, arrive, arrive-accounts,
}
use openquic.StreamFlowctrl.Regrant.{Regranted, read-Regranted}

abbrev cfg : Config
cfg = record {
  stream_initial_rwnd = 100;
  stream_initial_swnd = 100;
  stream_max_rwnd_size = 800;
  conn_max_rwnd_size = 1000;
}

abbrev conn : ConnFlowctrl
conn = record {
  rwnd = 1000;
  rwnd_size = 1000;
  recv_off = 90;
  read_off = 0;
  swnd = 0;
  sent_bytes = 0;
  epoch_off = 0;
  epoch_time = 0;
  updated = false;
}

abbrev fresh : StreamFlowctrl
fresh = record {
  rwnd = 100;
  rwnd_size = 100;
  recv_off = 0;
  read_off = 0;
  fin_flag = false;
  swnd = 100;
  sent_bytes = 0;
  last_blocked_at = 0;
  epoch_off = 0;
  epoch_time = 0;
}

abbrev partly : StreamFlowctrl
partly = record fresh { recv_off = 90; read_off = 20; epoch_time = 5 }

abbrev finished : StreamFlowctrl
finished = record partly { fin_flag = true }

abbrev used_up : StreamFlowctrl
used_up = record fresh { sent_bytes = 100 }

init-fresh : (n : ℕ) → n ≤ 100 → n ≤ get_swnd (init cfg)
unfolding init get_swnd
init-fresh n h = h

sent_le_swnd_example : (sent 70 (init cfg)).sent_bytes ≤ (sent 70 (init cfg)).swnd
sent_le_swnd_example =
    sent_le_swnd cfg (sent 70 (init cfg)) (omega arith)
      (sends 70 (init-fresh 70 (omega arith)) start)

blocked_now : (newly_blocked used_up).0 ≡ some 100
unfolding newly_blocked get_swnd
blocked_now = refl

arrive-accounts_example :
    let (fs, c) = arrive 1 40 false (partly ∷ fresh ∷ []) conn in
    (c.recv_off ≡ received_by fs % 2 ^ 64) × All Word fs × IsU64 c.recv_off
arrive-accounts_example =
    arrive-accounts 1 40 false (partly ∷ fresh ∷ []) conn (omega arith, (omega arith, tt))
      (omega arith) (omega arith) refl

read-Regranted_example : Regranted 50 partly (read cfg 10 7 50 partly conn)
read-Regranted_example =
    read-Regranted cfg 10 7 50 partly conn (omega arith) (omega arith) (omega arith) (omega arith)
      (omega arith) (omega arith) (omega arith)
