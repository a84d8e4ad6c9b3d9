-- ===== src/Retransmission/Twice.antt =====
-- An ACK frame whose ranges wrap around, and src/modules/retransmission.c.
use openquic.Common.{
  ℕ, ◌+◌, ◌-◌, ◌^◌, ◌<◌, ◌≡◌, refl, ◌∙◌, arith, Bool, true, false, List, [], ◌∷◌, none, leb, ◌&&◌,
  sub64,
}
use openquic.Common.Options.{◌>>=◌}
use openquic.Frame.{Frame, Ack}
use openquic.Frame.Dispatch.{codec}
use openquic.Frame.RoundTrip.{IsCovered}
use openquic.Retransmission.Interface.{Congestion}
use openquic.Retransmission.{
  SentPacket, Retransmission, World, hits, acked_times, acked_from, find_newly_acked,
}
use openquic.Retransmission.Accounts.{alive}

-- A packet number alone, and ranges as wide as a frame can say that lead round to it again.
abbrev pub around : ℕ → Ack
around key = record {
  first_byte = 0x02;
  largest_ack = key;
  delay = 0;
  first_range = 0;
  ect = none;
  ranges =
      record { gap = 2 ^ 62 - 1; len = 2 ^ 62 - 1 }
      ∷ record { gap = 2 ^ 62 - 1; len = 2 ^ 62 - 1 }
      ∷ record { gap = 0; len = 0 }
      ∷ [];
}

around-IsCovered : (key : ℕ) → key < 2 ^ 62 → IsCovered (Frame.ack (around key))
unfolding codec
around-IsCovered key h = (
  refl,
  record {
    largest = h;
    delay = omega arith;
    first = omega arith;
    count = omega arith;
    fits = (
      (omega arith, omega arith),
      ((omega arith, omega arith), ((omega arith, omega arith), tt)),
    );
    ect = tt;
  },
)

acked_times-around : (key : ℕ) → key < 2 ^ 62 → acked_times key (around key) ≡ 2
unfolding acked_times hits
acked_times-around key h =
    let e0 : sub64 key 0 ≡ key = omega arith in
    let e1 : sub64 (sub64 key (2 ^ 62 - 1)) 2 ≡ key + (2 ^ 64 - 2 ^ 62 - 1) = omega arith in
    let s1 : sub64 (key + (2 ^ 64 - 2 ^ 62 - 1)) (2 ^ 62 - 1) ≡ key + 2 ^ 63 = omega arith in
    let e2 : sub64 (sub64 (key + 2 ^ 63) (2 ^ 62 - 1)) 2 ≡ key + (2 ^ 62 - 1) = omega arith in
    let s2 : sub64 (key + (2 ^ 62 - 1)) (2 ^ 62 - 1) ≡ key = omega arith in
    let first : (leb key key && leb key key) ≡ true = ground arith in
    let second : (leb (key + 2 ^ 63) key && leb key (key + (2 ^ 64 - 2 ^ 62 - 1))) ≡ false =
      ground arith in
    let third : (leb key key && leb key (key + (2 ^ 62 - 1))) ≡ true = ground arith in
    rw (e0, e1, s1, e2, s2, first, second, third) refl

module _ (C : Congestion) (F : Type 0) where
  acked_from_twice :
      (granted : ℕ → Bool) (recv_time : ℕ) (p : SentPacket C F) (ps : List (SentPacket C F))
      (m : Retransmission C F) (w : World C F)
      → p.key < 2 ^ 62
      → acked_from C F granted (around p.key) recv_time (p ∷ ps) m w ≡ none
  unfolding acked_from
  acked_from_twice granted recv_time p ps m w h = rw (acked_times-around p.key h, acked_from) refl

  -- For the oldest packet in flight, whatever its number below 2 ^ 62, there is a well-formed ACK
  -- frame that finds it twice: quic_retransmission_find_newly_acked frees it twice.
  pub find_newly_acked_twice :
      (granted : ℕ → Bool) (recv_time : ℕ) (p : SentPacket C F) (ps : List (SentPacket C F))
      (m : Retransmission C F) (w : World C F)
      → p.key < 2 ^ 62
      → m.dropped ≡ false
      → m.sent_mem ≡ p ∷ ps
      → IsCovered (Frame.ack (around p.key))
        × (find_newly_acked C F granted (around p.key) recv_time m w ≡ none)
  find_newly_acked_twice granted recv_time p ps m w h d e = (
    around-IsCovered p.key h,
    alive C F granted (around p.key) recv_time m w d
        ∙ rw e (
            rw (acked_from_twice granted recv_time p ps (record m { sent_mem = p ∷ ps }) w h, ◌>>=◌)
              refl),
  )
