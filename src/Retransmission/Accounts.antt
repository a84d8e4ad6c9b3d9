-- ===== src/Retransmission/Accounts.antt =====
-- src/modules/retransmission.c counts the packets in flight, and their bytes.
use openquic.Common.{
  ℕ, zero, suc, ◌+◌, ◌%◌, ◌^◌, ◌≤◌, ◌<◌, ◌≡◌, refl, sym, ◌∙◌, inl, inr, arith, Bool, true, false,
  List, [], ◌∷◌, Option, some, All, length, ltb, ◌==◌, if◌then◌else◌, Bool-cases,
}
use mathlib.Core.Path.{subst}
use openquic.Common.Options.{◌>>=◌}
use openquic.Frame.{Ack}
use openquic.Retransmission.Interface.{Congestion}
use openquic.Retransmission.{
  SentPacket, Retransmission, World, acked_times, insert, discount, tell_acked, acked_from,
  find_newly_acked,
}

module _ (C : Congestion) (F : Type 0) where
  -- The bytes of the packets that count as in flight.
  abbrev pub in_flight : List (SentPacket C F) → ℕ
  in_flight [] = 0
  in_flight (p ∷ ps) = (if p.included_unacked then p.pkt_len else 0) + in_flight ps

  -- The counters of 32 bits tell the packets that are kept.
  pub record IsAccounted (m : Retransmission C F) : Type 0 where
    pub counted : m.sent_pkt_count ≡ length m.sent_mem % 2 ^ 32
    pub bytes : m.unacked_len ≡ in_flight m.sent_mem % 2 ^ 32

  -- The packets that an ACK frame does not acknowledge.
  abbrev pub missed : Ack → List (SentPacket C F) → List (SentPacket C F)
  missed f [] = []
  missed f (p ∷ ps) = let rest = missed f ps in if acked_times p.key f == 0 then p ∷ rest else rest

  -- The packets that were not sent before a time.
  abbrev pub recent : ℕ → List (SentPacket C F) → List (SentPacket C F)
  recent before [] = []
  recent before (p ∷ ps) =
      let rest = recent before ps in if ltb p.sent_time before then rest else p ∷ rest

  -- From `m` to `m'`, the counters moved as the list did from `ps` to `ps'`.
  pub record Moved (ps ps' : List (SentPacket C F)) (m m' : Retransmission C F) : Type 0 where
    pub counted :
        (m'.sent_pkt_count + length ps) % 2 ^ 32 ≡ (m.sent_pkt_count + length ps') % 2 ^ 32
    pub bytes : (m'.unacked_len + in_flight ps) % 2 ^ 32 ≡ (m.unacked_len + in_flight ps') % 2 ^ 32
    pub count_fits : m'.sent_pkt_count < 2 ^ 32
    pub bytes_fit : m'.unacked_len < 2 ^ 32

  pub Moved-settled :
      (p : SentPacket C F) (ps ps' : List (SentPacket C F)) (m m' : Retransmission C F)
      → p.pkt_len < 2 ^ 32
      → Moved ps ps' (discount C F p m) m'
      → Moved (p ∷ ps) ps' m m'
  unfolding discount
  Moved-settled p ps ps' m m' w u = record {
    counted = omega (arith, u.counted);
    bytes = ground (arith, u.bytes);
    count_fits = u.count_fits;
    bytes_fit = u.bytes_fit;
  }

  pub Moved-kept :
      (p : SentPacket C F) (ps ps' : List (SentPacket C F)) (m m' : Retransmission C F)
      → Moved ps ps' m m'
      → Moved (p ∷ ps) (p ∷ ps') m m'
  Moved-kept p ps ps' m m' u = record {
    counted = omega (arith, u.counted);
    bytes = omega (arith, u.bytes);
    count_fits = u.count_fits;
    bytes_fit = u.bytes_fit;
  }

  -- From the whole list on, the counters tell what is left.
  pub Moved-IsAccounted :
      (ps' : List (SentPacket C F)) (m m' : Retransmission C F)
      → IsAccounted m
      → Moved m.sent_mem ps' m m'
      → IsAccounted (record m' { sent_mem = ps' })
  Moved-IsAccounted ps' m m' v u = record {
    counted = omega (arith, v.counted, u.counted, u.count_fits);
    bytes = omega (arith, v.bytes, u.bytes, u.bytes_fit);
  }

  pub discount_fits :
      (p : SentPacket C F) (m : Retransmission C F)
      → m.sent_pkt_count < 2 ^ 32
      → m.unacked_len < 2 ^ 32
      → ((discount C F p m).sent_pkt_count < 2 ^ 32) × ((discount C F p m).unacked_len < 2 ^ 32)
  unfolding discount
  discount_fits p m h k = (omega arith, ground arith)

  -- What the walk over the packets does.
  record Walked (ps ps' : List (SentPacket C F)) (m : Retransmission C F)
      (r : Option (List (SentPacket C F) × Retransmission C F × World C F)) : Type 0 where
    after : Retransmission C F
    world : World C F
    result : r ≡ some (ps', after, world)
    moved : Moved ps ps' m after

  -- Each packet is found once at most, and its length is one of 32 bits.
  abbrev pub Once : Ack → SentPacket C F → Type 0
  Once f p = (acked_times p.key f ≤ 1) × (p.pkt_len < 2 ^ 32)

  missed-keeps :
      (f : Ack) (p : SentPacket C F) (ps : List (SentPacket C F))
      → acked_times p.key f ≡ 0
      → missed f (p ∷ ps) ≡ p ∷ missed f ps
  missed-keeps f p ps e = rw e refl

  missed-takes :
      (f : Ack) (p : SentPacket C F) (ps : List (SentPacket C F))
      → acked_times p.key f ≡ 1
      → missed f (p ∷ ps) ≡ missed f ps
  missed-takes f p ps e = rw e refl

  -- One packet, where the walk over the rest is known for both of its cases.
  acked_step :
      (granted : ℕ → Bool) (f : Ack) (recv_time : ℕ) (p : SentPacket C F)
      (ps : List (SentPacket C F)) (m : Retransmission C F) (w : World C F)
      → granted p.key ≡ true
      → p.pkt_len < 2 ^ 32
      → Walked ps (missed f ps) m (acked_from C F granted f recv_time ps m w)
      → Walked ps (missed f ps) (discount C F p m) (
          acked_from C F granted f recv_time ps
            (discount C F p m)
            (tell_acked C F recv_time p (discount C F p m) w))
      → (n : ℕ) → acked_times p.key f ≡ n
      → n ≤ 1
      → Walked (p ∷ ps) (missed f (p ∷ ps)) m (acked_from C F granted f recv_time (p ∷ ps) m w)
  unfolding acked_from
  acked_step granted f recv_time p ps m w g fits skipped found zero e le =
      subst (λ l. Walked (p ∷ ps) l m (acked_from C F granted f recv_time (p ∷ ps) m w))
        (sym (missed-keeps f p ps e))
        (rw (e, acked_from)
          (record {
            after = skipped.after;
            world = skipped.world;
            result = rw (skipped.result, ◌>>=◌) refl;
            moved = Moved-kept p ps _ m skipped.after skipped.moved;
          }))
  acked_step granted f recv_time p ps m w g fits skipped found (suc zero) e le =
      subst (λ l. Walked (p ∷ ps) l m (acked_from C F granted f recv_time (p ∷ ps) m w))
        (sym (missed-takes f p ps e))
        (rw (e, g, acked_from)
          (record {
            after = found.after;
            world = found.world;
            result = rw (found.result, ◌>>=◌) refl;
            moved = Moved-settled p ps _ m found.after fits found.moved;
          }))
  acked_step granted f recv_time p ps m w g fits skipped found (suc (suc n)) e le =
      absurd (omega arith)

  acked_from-Walked :
      (granted : ℕ → Bool) (f : Ack) (recv_time : ℕ) (ps : List (SentPacket C F))
      (m : Retransmission C F) (w : World C F)
      → ((k : ℕ) → granted k ≡ true)
      → All (Once f) ps
      → m.sent_pkt_count < 2 ^ 32
      → m.unacked_len < 2 ^ 32
      → Walked ps (missed f ps) m (acked_from C F granted f recv_time ps m w)
  unfolding acked_from
  acked_from-Walked granted f recv_time [] m w g os h k = record {
    after = m;
    world = w;
    result = refl;
    moved = record { counted = refl; bytes = refl; count_fits = h; bytes_fit = k };
  }
  acked_from-Walked granted f recv_time (p ∷ ps) m w g ((o, fits), os) h k =
      let settled : Retransmission C F = discount C F p m in
      let (h', k') = discount_fits p m h k in
      acked_step granted f recv_time p ps m w (g p.key) fits
        (acked_from-Walked granted f recv_time ps m w g os h k)
        (acked_from-Walked granted f recv_time ps settled (tell_acked C F recv_time p settled w) g
          os h' k')
        (acked_times p.key f) refl o

  pub alive :
      (granted : ℕ → Bool) (f : Ack) (recv_time : ℕ) (m : Retransmission C F) (w : World C F)
      → m.dropped ≡ false
      → find_newly_acked C F granted f recv_time m w ≡ (
          acked_from C F granted f recv_time m.sent_mem m w >>= λ r.
          some (record r.1 { sent_mem = r.0 }, r.2))
  unfolding find_newly_acked
  alive granted f recv_time m w d = simp d

  -- Where memory is granted for the list of what is dropped, the module is not dropped, the
  -- counters tell the packets in flight, whose lengths have 32 bits, and the frame finds no
  -- packet twice, the handling of an ACK frame settles exactly the packets that the walk over its
  -- ranges finds, and the counters go on to tell the packets and the bytes that are kept.
  pub find_newly_acked-settles :
      (granted : ℕ → Bool) (f : Ack) (recv_time : ℕ) (m : Retransmission C F) (w : World C F)
      → ((k : ℕ) → granted k ≡ true)
      → All (Once f) m.sent_mem
      → m.dropped ≡ false
      → IsAccounted m
      → (m' : Retransmission C F) × (w' : World C F) × (find_newly_acked C F granted f recv_time m w
          ≡ some (m', w'))
        × (m'.sent_mem ≡ missed f m.sent_mem)
        × IsAccounted m'
  unfolding find_newly_acked
  find_newly_acked-settles granted f recv_time m w g os d v =
      let u : Walked m.sent_mem (missed f m.sent_mem) m
          (acked_from C F granted f recv_time m.sent_mem m w) =
        acked_from-Walked granted f recv_time m.sent_mem m w g os (omega (arith, v.counted))
          (omega (arith, v.bytes)) in
      (
        record u.after { sent_mem = missed f m.sent_mem },
        u.world,
        alive granted f recv_time m w d ∙ rw (u.result, ◌>>=◌) refl,
        refl,
        Moved-IsAccounted (missed f m.sent_mem) m u.after v u.moved,
      )

  pub length-insert :
      (p : SentPacket C F) (ps : List (SentPacket C F))
      → (length (insert C F p ps) ≡ suc (length ps))
        × (in_flight (insert C F p ps) ≡ in_flight (p ∷ ps))
  unfolding insert
  length-insert p [] = (refl, refl)
  length-insert p (q ∷ qs) =
      let (l, b) = length-insert p qs in
      elim (Bool-cases (ltb q.key p.key)) [
        | inl after ↦ rw after (omega arith, omega arith)
        | inr here ↦ rw here (refl, refl)
      ]
