-- ===== src/Retransmission/Losses.antt =====
-- src/modules/retransmission.c: packets that are sent, and packets that are given up.
use openquic.Common.{
  ℕ, ◌+◌, ◌%◌, ◌^◌, ◌<◌, ◌≡◌, refl, sym, ap, ◌∙◌, inl, inr, arith, Bool, true, false, List, [], ◌∷◌,
  All, length, ltb, ◌==◌, ◌||◌, Bool-cases, add64, sub64,
}
use mathlib.Core.Path.{subst}
use openquic.Retransmission.Interface.{Congestion}
use openquic.Retransmission.{
  SentPacket, Retransmission, World, insert, sent_mem_push, update_alarm, discount, tell_lost,
  lost_delay, note_loss_time, lost_from, find_newly_lost,
}
use openquic.Retransmission.Accounts.{
  in_flight, IsAccounted, recent, Moved, Moved-settled, Moved-kept, Moved-IsAccounted,
  discount_fits, length-insert,
}

module _ (C : Congestion) (F : Type 0) where
  abbrev SameCounts : Retransmission C F → Retransmission C F → Type 0
  SameCounts m m' =
      (m'.sent_pkt_count ≡ m.sent_pkt_count)
      × (m'.unacked_len ≡ m.unacked_len)
      × (m'.sent_mem ≡ m.sent_mem)

  update_alarm-SameCounts :
      (m : Retransmission C F) (w : World C F) → SameCounts m (update_alarm C F m w).0
  unfolding update_alarm
  update_alarm-SameCounts m w = elim (Bool-cases m.dropped) [
    | inl over ↦ rw over (refl, refl, refl)
    | inr live ↦ elim (Bool-cases (m.unacked_len == 0)) [
      | inl idle ↦ rw (live, idle) (refl, refl, refl)
      | inr busy ↦ rw (live, busy) (refl, refl, refl)
    ]
  ]

  note_loss_time-SameCounts :
      (delay : ℕ) (p : SentPacket C F) (m : Retransmission C F) (w : World C F)
      → SameCounts m (note_loss_time C F delay p m w).0
  unfolding note_loss_time
  note_loss_time-SameCounts delay p m w =
      elim (Bool-cases (m.loss_time == 0 || ltb (add64 p.sent_time delay) m.loss_time)) [
        | inl sooner ↦
            rw sooner (update_alarm-SameCounts (record m { loss_time = add64 p.sent_time delay }) w)
        | inr later ↦ rw later (refl, refl, refl)
      ]

  Moved-from :
      (ps ps' : List (SentPacket C F)) (m m1 m' : Retransmission C F)
      → SameCounts m m1
      → Moved C F ps ps' m1 m'
      → Moved C F ps ps' m m'
  Moved-from ps ps' m m1 m' (c, b, s) u = record {
    counted = omega (arith, u.counted);
    bytes = omega (arith, u.bytes);
    count_fits = u.count_fits;
    bytes_fit = u.bytes_fit;
  }

  -- What the walk over the packets leaves.
  record Left (ps ps' : List (SentPacket C F)) (m : Retransmission C F)
      (r : List (SentPacket C F) × Retransmission C F × World C F) : Type 0 where
    kept : r.0 ≡ ps'
    moved : Moved C F ps ps' m r.1

  abbrev pub Fits : SentPacket C F → Type 0
  Fits p = p.pkt_len < 2 ^ 32

  recent-drops :
      (before : ℕ) (p : SentPacket C F) (ps : List (SentPacket C F))
      → ltb p.sent_time before ≡ true
      → recent C F before (p ∷ ps) ≡ recent C F before ps
  recent-drops before p ps e = rw e refl

  recent-keeps :
      (before : ℕ) (p : SentPacket C F) (ps : List (SentPacket C F))
      → ltb p.sent_time before ≡ false
      → recent C F before (p ∷ ps) ≡ p ∷ recent C F before ps
  recent-keeps before p ps e = rw e refl

  lost_from-Left :
      (granted : ℕ → Bool) (before delay : ℕ) (ps : List (SentPacket C F)) (m : Retransmission C F)
      (w : World C F)
      → ((k : ℕ) → granted k ≡ true)
      → All Fits ps
      → m.sent_pkt_count < 2 ^ 32
      → m.unacked_len < 2 ^ 32
      → Left ps (recent C F before ps) m (lost_from C F granted before delay ps m w)
  unfolding lost_from
  lost_from-Left granted before delay [] m w g os h k = record {
    kept = refl;
    moved = record { counted = refl; bytes = refl; count_fits = h; bytes_fit = k };
  }
  lost_from-Left granted before delay (p ∷ ps) m w g (fits, os) h k =
      let settled : Retransmission C F = discount C F p m in
      let (h', k') = discount_fits C F p m h k in
      let same = note_loss_time-SameCounts delay p m w in
      let (m1, w1) = note_loss_time C F delay p m w in
      let late =
        lost_from-Left granted before delay ps settled (tell_lost C F p settled w) g os h' k' in
      let early =
        lost_from-Left granted before delay ps m1 w1 g os (omega (arith, same.0))
          (omega (arith, same.1)) in
      elim (Bool-cases (ltb p.sent_time before)) [
        | inl old ↦
            subst (λ l. Left (p ∷ ps) l m (lost_from C F granted before delay (p ∷ ps) m w))
              (sym (recent-drops before p ps old))
              (rw (old, g p.key)
                (record { kept = late.kept; moved = Moved-settled C F p ps _ m _ fits late.moved }))
        | inr new ↦
            subst (λ l. Left (p ∷ ps) l m (lost_from C F granted before delay (p ∷ ps) m w))
              (sym (recent-keeps before p ps new))
              (rw new (record {
                kept = ap (λ l. p ∷ l) early.kept;
                moved = Moved-kept C F p ps _ m _ (Moved-from ps _ m m1 _ same early.moved);
              }))
      ]

  lost_alive :
      (granted : ℕ → Bool) (now : ℕ) (m : Retransmission C F) (w : World C F)
      → m.dropped ≡ false
      → let delay = lost_delay C F (C.smoothed_rtt w.congestion) in
        let (ps, m', w') =
          lost_from C F granted (sub64 now delay) delay m.sent_mem (record m { loss_time = 0 }) w in
        find_newly_lost C F granted now m w ≡ (record m' { sent_mem = ps }, w')
  unfolding find_newly_lost
  lost_alive granted now m w d = simp d

  -- Where memory is granted, the module is not dropped, and the counters tell the packets in
  -- flight, whose lengths have 32 bits, giving up packets keeps just those that were sent no
  -- earlier than the delay before now, and the counters go on to tell what is kept.
  pub find_newly_lost-settles :
      (granted : ℕ → Bool) (now : ℕ) (m : Retransmission C F) (w : World C F)
      → ((k : ℕ) → granted k ≡ true)
      → All Fits m.sent_mem
      → m.dropped ≡ false
      → IsAccounted C F m
      → let m' = (find_newly_lost C F granted now m w).0 in
        (m'.sent_mem
          ≡ recent C F (sub64 now (lost_delay C F (C.smoothed_rtt w.congestion))) m.sent_mem)
        × IsAccounted C F m'
  find_newly_lost-settles granted now m w g os d v =
      let delay : ℕ = lost_delay C F (C.smoothed_rtt w.congestion) in
      let u =
        lost_from-Left granted (sub64 now delay) delay m.sent_mem (record m { loss_time = 0 }) w g
          os (omega (arith, v.counted)) (omega (arith, v.bytes)) in
      let r =
        lost_from C F granted (sub64 now delay) delay m.sent_mem (record m { loss_time = 0 }) w in
      subst (λ x. (x.0.sent_mem ≡ recent C F (sub64 now delay) m.sent_mem) × IsAccounted C F x.0)
        (sym (lost_alive granted now m w d))
        (
          u.kept,
          subst (λ l. IsAccounted C F (record r.1 { sent_mem = l })) (sym u.kept)
              (Moved-IsAccounted C F _ (record m { loss_time = 0 }) r.1
                (record { counted = v.counted; bytes = v.bytes }) u.moved),
        )

  IsAccounted-same :
      (m m' : Retransmission C F) → SameCounts m m' → IsAccounted C F m → IsAccounted C F m'
  IsAccounted-same m m' (c, b, s) v = record {
    counted = c ∙ v.counted ∙ ap (λ l. length l % 2 ^ 32) (sym s);
    bytes = b ∙ v.bytes ∙ ap (λ l. in_flight C F l % 2 ^ 32) (sym s);
  }

  -- The state after a push, where the packet is to be acknowledged, and where it is not.
  abbrev kept_in : SentPacket C F → Retransmission C F → Retransmission C F
  kept_in p m = record m {
    sent_mem = insert C F p m.sent_mem;
    sent_pkt_count = (m.sent_pkt_count + 1) % 2 ^ 32;
  }

  pushed :
      (p : SentPacket C F) (m : Retransmission C F) (w : World C F)
      → m.dropped ≡ false
      → p.included_unacked ≡ true
      → sent_mem_push C F p m w
        ≡ update_alarm C F
            (record (kept_in p m) {
              last_sent_ack_time = p.sent_time;
              unacked_len = (m.unacked_len + p.pkt_len) % 2 ^ 32;
            })
            w
  unfolding sent_mem_push
  pushed p m w d e = simp (d, e)

  pushed_silent :
      (p : SentPacket C F) (m : Retransmission C F) (w : World C F)
      → m.dropped ≡ false
      → p.included_unacked ≡ false
      → sent_mem_push C F p m w ≡ (kept_in p m, w)
  unfolding sent_mem_push
  pushed_silent p m w d e = simp (d, e)

  -- Where the module is not dropped and the counters tell the packets in flight, they do so after
  -- a packet, whose length has 32 bits, is sent and kept.
  pub sent_mem_push-IsAccounted :
      (p : SentPacket C F) (m : Retransmission C F) (w : World C F)
      → p.pkt_len < 2 ^ 32
      → m.dropped ≡ false
      → IsAccounted C F m
      → IsAccounted C F (sent_mem_push C F p m w).0
  sent_mem_push-IsAccounted p m w fits d v =
      let (l, b) = length-insert C F p m.sent_mem in
      let counting : Retransmission C F = record (kept_in p m) {
        last_sent_ack_time = p.sent_time;
        unacked_len = (m.unacked_len + p.pkt_len) % 2 ^ 32;
      } in
      elim (Bool-cases p.included_unacked) [
        | inl counts ↦
            subst (λ x. IsAccounted C F x.0) (sym (pushed p m w d counts))
              (IsAccounted-same counting _ (update_alarm-SameCounts counting w) (record {
                counted = omega (arith, v.counted, l);
                bytes = ground (arith, v.bytes, b, counts);
              }))
        | inr silent ↦
            subst (λ x. IsAccounted C F x.0) (sym (pushed_silent p m w d silent))
              (record {
                counted = omega (arith, v.counted, l);
                bytes = ground (arith, v.bytes, b, silent);
              })
      ]
