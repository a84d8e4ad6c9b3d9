-- ===== src/AckGenerator/Generate.antt =====
-- quic_ack_generator_generate: the ACK frame says just which packet numbers were received.
use openquic.Common.{
  ℕ, ◌+◌, ◌-◌, ◌^◌, ◌≤◌, ◌<◌, ◌≡◌, refl, arith, Bool, true, false, not, ◌&&◌, ◌||◌, List, [], ◌∷◌,
  none, some, All, length, leb, ◌==◌, sub64,
}
use mathlib.Core.List.{reverse, reverse_aux}
use openquic.Frame.{Ack, AckRange}
use openquic.Frame.Acks.{IsAck, RangeFits}
use openquic.AckGenerator.{Range, AckGenerator, Generated, frame, dec32, gaps_below, frame_of}
use openquic.AckGenerator.Ranges.{IsNumber, IsRanges, covers}
use openquic.AckGenerator.Insert.{IsAckGenerator}

-- From the back: each range ends below `hi`, with a packet number between two of them.
abbrev IsBelow : ℕ → List Range → Type 0
IsBelow hi [] = Unit
IsBelow hi (r ∷ rs) = (r.start ≤ r.end) × (r.end + 2 ≤ hi) × IsBelow r.start rs

-- RFC 9000, 19.3.1: the ranges of an ACK frame below the packet number `smallest`.
abbrev acks_below : ℕ → ℕ → List AckRange → Bool
acks_below i smallest [] = false
acks_below i smallest (r ∷ rs) =
    let largest = smallest - r.gap - 2 in
    (leb (largest - r.len) i && leb i largest) || acks_below i (largest - r.len) rs

-- Whether an ACK frame acknowledges the packet number `i`.
abbrev pub acks : ℕ → Ack → Bool
acks i f =
    let smallest = f.largest_ack - f.first_range in
    (leb smallest i && leb i f.largest_ack) || acks_below i smallest f.ranges

IsBelow-raise : (lo hi : ℕ) (rs : List Range) → lo ≤ hi → IsBelow lo rs → IsBelow hi rs
IsBelow-raise lo hi [] h v = tt
IsBelow-raise lo hi (r ∷ rs) h (v0, v1, v2) = (v0, omega arith, v2)

-- The ranges from `lo` on, put in front of those below it, from the back.
record Reversed (rs acc out : List Range) : Type 0 where
  below : IsBelow (2 ^ 62 + 1) out
  same : (i : ℕ) → covers i out ≡ (covers i rs || covers i acc)
  long : length out ≡ length rs + length acc

reverse_aux-Reversed :
    (lo : ℕ) (rs acc : List Range)
    → IsRanges lo rs
    → IsBelow lo acc
    → lo ≤ 2 ^ 62 + 1
    → Reversed rs acc (reverse_aux rs acc)
reverse_aux-Reversed lo [] acc v a h = record {
  below = IsBelow-raise lo _ acc h a;
  same = λ i. refl;
  long = omega arith;
}
reverse_aux-Reversed lo (r ∷ rs) acc (v0, v1, v2, v3) a h =
    let u : Reversed rs (r ∷ acc) (reverse_aux rs (r ∷ acc)) =
      reverse_aux-Reversed (r.end + 2) rs (r ∷ acc) v3
        (v1, omega arith, IsBelow-raise lo r.start acc v0 a) (omega arith) in
    record { below = u.below; same = λ i. ground (arith, u.same i); long = omega (arith, u.long) }

acks_below-gaps_below :
    (i s : ℕ) (rs : List Range)
    → IsBelow s rs
    → s < 2 ^ 62
    → acks_below i s (gaps_below s rs) ≡ covers i rs
unfolding gaps_below
acks_below-gaps_below i s [] v h = refl
acks_below-gaps_below i s (r ∷ rs) (v0, v1, v2) h =
    let e0 : s - sub64 (sub64 s r.end) 2 - 2 ≡ r.end = omega arith in
    let e1 : r.end - sub64 r.end r.start ≡ r.start = omega arith in
    rw (e0, e1, acks_below-gaps_below i r.start rs v2 (omega arith)) refl

gaps_below-fits :
    (s : ℕ) (rs : List Range) → IsBelow s rs → s < 2 ^ 62 → All RangeFits (gaps_below s rs)
unfolding gaps_below
gaps_below-fits s [] v h = tt
gaps_below-fits s (r ∷ rs) (v0, v1, v2) h =
    ((omega arith, omega arith), gaps_below-fits r.start rs v2 (omega arith))

length-gaps_below : (s : ℕ) (rs : List Range) → length (gaps_below s rs) ≡ length rs
unfolding gaps_below
length-gaps_below s [] = refl
length-gaps_below s (r ∷ rs) = omega (arith, length-gaps_below r.start rs)

-- What arrives of the frame at the peer: the counters that are set to 0 are not sent.
abbrev pub bare : Ack → Ack
bare f = record f { ect = none }

-- A frame that can be formatted, and acknowledges what is covered.
pub record Tells (rs : List Range) (g : Generated) : Type 0 where
  pub told : Ack
  pub is_frame : g ≡ frame told
  pub kind : told.first_byte ≡ 0x02
  pub is_ack : IsAck (bare told)
  pub same : (i : ℕ) → acks i told ≡ covers i rs
  pub long : length told.ranges + 1 ≡ length rs

frame_of-Tells :
    (count delay : ℕ) (rs : List Range)
    → IsBelow (2 ^ 62 + 1) rs
    → count ≡ length rs
    → 1 ≤ count
    → count < 2 ^ 32
    → IsNumber delay
    → Tells rs (frame_of count delay rs)
unfolding frame_of
frame_of-Tells count delay [] v e h k d = absurd (omega arith)
frame_of-Tells count delay (r ∷ rs) (v0, v1, v2) e h k d =
    let whole : (dec32 count == length rs) ≡ true = ground arith in
    let back : r.end - sub64 r.end r.start ≡ r.start = omega arith in
    record {
      told = record {
        first_byte = 0x02;
        largest_ack = r.end;
        delay = delay;
        first_range = sub64 r.end r.start;
        ect = some (record { ect0 = 0; ect1 = 0; ect_ce = 0 });
        ranges = gaps_below r.start rs;
      };
      is_frame = rw whole refl;
      kind = refl;
      is_ack = record {
        largest = omega arith;
        delay = d;
        first = omega arith;
        count = omega (arith, length-gaps_below r.start rs);
        fits = gaps_below-fits r.start rs v2 (omega arith);
        ect = tt;
      };
      same = λ i. rw (back, acks_below-gaps_below i r.start rs v2 (omega arith)) refl;
      long = omega (arith, length-gaps_below r.start rs);
    }

-- Whether an ACK frame is to be sent at the time `now`.
abbrev pub is_due : ℕ → AckGenerator → Bool
is_due now m = m.should_send || (not (m.alarm == 0) && leb m.alarm now)

pub generate-Tells :
    (now : ℕ) (m : AckGenerator)
    → IsAckGenerator m
    → 1 ≤ length m.ranges
    → length m.ranges < 2 ^ 32
    → IsNumber (sub64 now m.lg_obtime)
    → Tells (reverse m.ranges) (frame_of m.ranges_count (sub64 now m.lg_obtime) (reverse m.ranges))
      × ((i : ℕ) → covers i (reverse m.ranges) ≡ covers i m.ranges)
      × (length (reverse m.ranges) ≡ length m.ranges)
generate-Tells now m v h k d =
    let u : Reversed m.ranges [] (reverse m.ranges) =
      reverse_aux-Reversed 0 m.ranges [] v.ranges tt (omega arith) in
    (
      frame_of-Tells m.ranges_count (sub64 now m.lg_obtime) (reverse m.ranges) u.below
          (omega (arith, u.long, v.counted)) (omega (arith, v.counted)) (omega (arith, v.counted))
          d,
      λ i. ground (arith, u.same i),
      omega (arith, u.long),
    )
