-- ===== src/AckGenerator/Receive.antt =====
-- quic_ack_generator_module_received as a whole.
use openquic.Common.{
  ℕ, ◌+◌, ◌^◌, ◌≤◌, ◌<◌, ◌≡◌, refl, sym, ap, ◌∙◌, inl, inr, arith, Bool, true, false, not, ◌&&◌,
  ◌||◌, Option, none, some, length, ltb, leb, ◌==◌, if◌then◌else◌, Bool-cases,
}
use mathlib.Core.Path.{subst}
use openquic.AckGenerator.{AckGenerator, insert_ranges, check_is_lost, note_send, received}
use openquic.AckGenerator.Ranges.{IsNumber, IsRanges, covers}
use openquic.AckGenerator.Insert.{IsAckGenerator, InsertsNumber, insert_ranges-InsertsNumber}

-- What the module is after the packet `num` was received.
pub record Received (num : ℕ) (should_ack : Bool) (m : AckGenerator) (r : Option AckGenerator)
    : Type 0 where
  pub after : AckGenerator
  pub result : r ≡ some after
  pub valid : IsAckGenerator after
  pub adds : (i : ℕ) → covers i after.ranges ≡ (covers i m.ranges || i == num)
  pub sends : after.should_send ≡ (
      m.should_send
      || (not (covers num m.ranges) && should_ack)
      || (check_is_lost num m && should_ack))

noted :
    (num : ℕ) (should_ack lost : Bool) (m m' : AckGenerator)
    → m'.ranges ≡ m.ranges
    → m'.should_send ≡ m.should_send
    → lost ≡ check_is_lost num m
    → (u : InsertsNumber num m' (insert_ranges true num m'))
    → Received num should_ack m (elim (insert_ranges true num m') [
      | some r ↦ some (note_send lost should_ack r)
      | none ↦ none
    ])
noted num should_ack lost m m' same sent e u =
    let a : u.after.should_send ≡ m.should_send = ap (λ x. x.should_send) u.rest ∙ sent in
    let b : u.answer ≡ not (covers num m.ranges) = u.is_new ∙ ap (λ rs. not (covers num rs)) same in
    rw u.result (record {
      after = note_send lost should_ack (u.answer, u.after);
      result = refl;
      valid = record { ranges = u.valid.ranges; counted = u.valid.counted };
      adds = λ i. u.adds i ∙ ap (λ rs. covers i rs || i == num) same;
      sends = λ k. a k || (b k && should_ack) || (e k && should_ack);
    })

-- The state after the largest number is noted.
abbrev largest : ℕ → ℕ → AckGenerator → AckGenerator
largest num recv_time m =
    if leb m.lg_obnum num then record m { lg_obnum = num; lg_obtime = recv_time } else m

largest_keeps :
    (num recv_time : ℕ) (m : AckGenerator)
    → ((largest num recv_time m).ranges ≡ m.ranges)
      × ((largest num recv_time m).ranges_count ≡ m.ranges_count)
      × ((largest num recv_time m).should_send ≡ m.should_send)
largest_keeps num recv_time m = elim (Bool-cases (leb m.lg_obnum num)) [
  | inl newest ↦ rw newest (refl, refl, refl)
  | inr older ↦ rw older (refl, refl, refl)
]

-- Where memory is granted, the module is not dropped, the ranges are valid, counted and not too
-- many for 32 bits, and the number is below 2 ^ 62 and not below the threshold, the receipt of a
-- packet adds just its number to the set, and asks for an ACK frame where one was asked for
-- before, or where the packet wants it and is new or was missing; it never fails.
pub received-Received :
    (num recv_time : ℕ) (should_ack : Bool) (m : AckGenerator)
    → IsAckGenerator m
    → IsNumber num
    → length m.ranges + 1 < 2 ^ 32
    → m.dropped ≡ false
    → m.ignore_threhold ≤ num
    → Received num should_ack m (received true num recv_time should_ack m)
unfolding received
received-Received num recv_time should_ack m v n h d t =
    let taken : (ltb num m.ignore_threhold || m.dropped) ≡ false = ground arith in
    let (ranges, count, sent) = largest_keeps num recv_time m in
    rw taken (
      noted num should_ack _ m (largest num recv_time m) ranges sent refl (
        insert_ranges-InsertsNumber num (largest num recv_time m)
          (record {
            ranges = subst (IsRanges 0) (sym ranges) v.ranges;
            counted = count ∙ v.counted ∙ ap (λ rs. length rs) (sym ranges);
          })
          n (subst (λ rs. length rs + 1 < 2 ^ 32) (sym ranges) h)))
