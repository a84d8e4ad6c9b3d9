-- ===== src/StreamFlowctrl/Unsent.antt =====
-- quic_stream_flowctrl_instance_read leaves the credit to send as it is.
use openquic.Common.{
  ℕ, zero, suc, ◌≡◌, refl, ◌∙◌, inl, inr, ◌/◌, Bool, true, false, ◌||◌, Option, none, some, leb,
  ◌==◌, Bool-cases, add64, sub64,
}
use openquic.Common.Options.{◌>>=◌}
use openquic.ConnFlowctrl
use openquic.ConnFlowctrl.{ConnFlowctrl}
use openquic.StreamFlowctrl
use openquic.StreamFlowctrl.{Config, StreamFlowctrl, tune, adjust_rwnd, count_read, is_low}

-- What reading does to the credit to send: nothing.
unfoldable pub Keeps : StreamFlowctrl → Option (StreamFlowctrl × ConnFlowctrl × Bool) → Type 0
Keeps f none = Unit
Keeps f (some (f', c', moved)) = (f'.swnd ≡ f.swnd) × (f'.sent_bytes ≡ f.sent_bytes)

Adjusts : StreamFlowctrl → Option (StreamFlowctrl × ConnFlowctrl) → Type 0
Adjusts f none = Unit
Adjusts f (some (f', c')) = (f'.swnd ≡ f.swnd) × (f'.sent_bytes ≡ f.sent_bytes)

tune-Adjusts :
    (cfg : Config) (rtt now readed n : ℕ) (f : StreamFlowctrl) (c : ConnFlowctrl)
    → Adjusts f (tune cfg rtt now readed n f c)
unfolding tune Adjusts
tune-Adjusts cfg rtt now readed zero f c = tt
tune-Adjusts cfg rtt now readed (suc n) f c = (refl, refl)

adjust_rwnd-Adjusts :
    (cfg : Config) (rtt now : ℕ) (f : StreamFlowctrl) (c : ConnFlowctrl)
    → Adjusts f (adjust_rwnd cfg rtt now f c)
unfolding adjust_rwnd Adjusts
adjust_rwnd-Adjusts cfg rtt now f c =
    elim (Bool-cases (leb (sub64 f.read_off f.epoch_off) (f.rwnd_size / 2) || rtt == 0)) [
      | inl same ↦ rw same (refl, refl)
      | inr more ↦ rw more (tune-Adjusts cfg rtt now (sub64 f.read_off f.epoch_off) f.rwnd_size f c)
    ]

count_read-same :
    (now len : ℕ) (f : StreamFlowctrl)
    → ((count_read now len f).swnd ≡ f.swnd) × ((count_read now len f).sent_bytes ≡ f.sent_bytes)
unfolding count_read
count_read-same now len f = elim (Bool-cases (f.read_off == 0)) [
  | inl first ↦ rw first (refl, refl)
  | inr later ↦ rw later (refl, refl)
]

counted-Keeps :
    (f g : StreamFlowctrl) (moved : Bool) (o : Option ConnFlowctrl)
    → g.swnd ≡ f.swnd
    → g.sent_bytes ≡ f.sent_bytes
    → Keeps f (o >>= λ c3. some (g, c3, moved))
unfolding Keeps
counted-Keeps f g moved none e e' = tt
counted-Keeps f g moved (some c3) e e' = (e, e')

adjusted-Keeps :
    (cfg : Config) (rtt now len : ℕ) (f g : StreamFlowctrl)
    (r : Option (StreamFlowctrl × ConnFlowctrl))
    → Adjusts g r
    → g.swnd ≡ f.swnd
    → g.sent_bytes ≡ f.sent_bytes
    → Keeps f (do
      (f2, c2) ← r
      c3 ← ConnFlowctrl.read cfg.conn_max_rwnd_size rtt now len c2
      some (record f2 { rwnd = add64 f2.read_off f2.rwnd_size }, c3, true))
unfolding Adjusts Keeps
adjusted-Keeps cfg rtt now len f g none a e e' = tt
adjusted-Keeps cfg rtt now len f g (some (f2, c2)) (a, a') e e' =
    counted-Keeps f (record f2 { rwnd = add64 f2.read_off f2.rwnd_size }) true
      (ConnFlowctrl.read cfg.conn_max_rwnd_size rtt now len c2) (a ∙ e) (a' ∙ e')

pub read-Keeps :
    (cfg : Config) (rtt now len : ℕ) (f : StreamFlowctrl) (c : ConnFlowctrl)
    → Keeps f (StreamFlowctrl.read cfg rtt now len f c)
unfolding StreamFlowctrl.read
read-Keeps cfg rtt now len f c =
    let f1 : StreamFlowctrl = count_read now len f in
    let (e, e') = count_read-same now len f in
    elim (Bool-cases (is_low f1)) [
      | inl low ↦ rw low (
          adjusted-Keeps cfg rtt now len f f1 (adjust_rwnd cfg rtt now f1 c)
            (adjust_rwnd-Adjusts cfg rtt now f1 c) e e')
      | inr enough ↦
          rw enough
            (counted-Keeps f f1 false (ConnFlowctrl.read cfg.conn_max_rwnd_size rtt now len c) e e')
    ]
