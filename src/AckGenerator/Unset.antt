-- ===== src/AckGenerator/Unset.antt =====
-- quic_ack_generator_set_ignore_threhold and the next frame: a range is freed, but still counted.
use openquic.Common.{
  ℕ, ◌+◌, ◌^◌, ◌≤◌, ◌<◌, ◌≡◌, refl, ap, arith, true, false, List, [], ◌∷◌, length, ltb, leb, ◌==◌,
}
use mathlib.Core.List.{reverse, reverse_aux}
use openquic.AckGenerator.{
  Range, AckGenerator, unset, dec32, frame_of, generate, set_ignore_threhold, ignore, ignore_from,
}
use openquic.AckGenerator.Ranges.{IsRanges}
use openquic.AckGenerator.Ignore.{length-ignore_from}
use openquic.AckGenerator.Insert.{IsAckGenerator}
use openquic.AckGenerator.Generate.{is_due}
use openquic.AckGenerator.Wire.{generate_due}

frame_of_unset :
    (count delay : ℕ) (rs : List Range)
    → length rs < count
    → count < 2 ^ 32
    → frame_of count delay rs ≡ unset
unfolding frame_of
frame_of_unset count delay [] h k = refl
frame_of_unset count delay (r ∷ rs) h k =
    let wrong : (dec32 count == length rs) ≡ false = ground arith in rw wrong refl

length-reverse_aux : (rs acc : List Range) → length (reverse_aux rs acc) ≡ length rs + length acc
length-reverse_aux [] acc = omega arith
length-reverse_aux (r ∷ rs) acc = omega (arith, length-reverse_aux rs (r ∷ acc))

ignore_from-shortens :
    (t : ℕ) (r : Range) (rs : List Range)
    → IsRanges 0 (r ∷ rs)
    → r.end < t
    → length (ignore_from t (r ∷ rs)) < length (r ∷ rs)
unfolding ignore_from
ignore_from-shortens t r rs (v0, v1, v2, v3) h =
    let above : leb t r.start ≡ false = ground arith in
    let below : ltb r.end t ≡ true = ground arith in
    let u : length (ignore_from t rs) ≤ length rs = length-ignore_from t (r.end + 2) rs v3 in
    rw (above, below) (omega (arith, u))

-- Where the threshold is raised past the end of the first of the counted ranges,
-- quic_ack_generator_ignore frees a range that ranges_count still counts: the next frame that is
-- due has ranges that were never set.
pub generate-set_ignore_threhold :
    (num now : ℕ) (m : AckGenerator) (r : Range) (rs : List Range)
    → IsAckGenerator m
    → m.ranges ≡ r ∷ rs
    → m.ignore_threhold < num
    → r.end < num
    → m.dropped ≡ false
    → is_due now m ≡ true
    → length m.ranges < 2 ^ 32
    → (generate true now (set_ignore_threhold num m)).0 ≡ unset
unfolding set_ignore_threhold ignore
generate-set_ignore_threhold num now m r rs v e h k q due long =
    let passes : leb num m.ignore_threhold ≡ false = ground arith in
    let rest : List Range = ignore_from num m.ranges in
    let shorter : length rest < length m.ranges =
      rw e (ignore_from-shortens num r rs (rw e at v.ranges) k) in
    rw passes (
      ap (λ g. g.0)
        (generate_due now (record m { ranges = rest; ignore_threhold = num }) unset q due
          (frame_of_unset m.ranges_count _ (reverse rest)
            (omega (arith, length-reverse_aux rest [], shorter, v.counted))
            (omega (arith, v.counted, long)))))
