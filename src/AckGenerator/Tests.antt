-- ===== src/AckGenerator/Tests.antt =====
-- Runs of src/modules/ack_generator.c, and witnesses.
use openquic.Common.{ℕ, [], ◌∷◌, ◌≡◌, refl, arith, true, leb, ◌&&◌}
use openquic.Frame.Wire.{Buf}
use openquic.AckGenerator.{AckGenerator, insert_ranges, set_ignore_threhold, init, received}
use openquic.AckGenerator.Ranges.{IsRanges, covers}
use openquic.AckGenerator.Insert.{IsAckGenerator, InsertsNumber, insert_ranges-InsertsNumber}
use openquic.AckGenerator.Receive.{Received, received-Received}
use openquic.AckGenerator.Ignore.{set_ignore_threhold-forgets}
use openquic.AckGenerator.Wire.{Acknowledges, generate-Acknowledges}

-- 3 to 5 and 7 to 9 were received, and an ACK frame is due.
abbrev two_ranges : AckGenerator
two_ranges = record init {
  ranges = record { start = 3; end = 5 } ∷ record { start = 7; end = 9 } ∷ [];
  ranges_count = 2;
  should_send = true;
}

abbrev room : Buf
room = record { out = []; room = 64 }

two_ranges-IsAckGenerator : IsAckGenerator two_ranges
two_ranges-IsAckGenerator = record {
  ranges = (omega arith, omega arith, omega arith, (omega arith, omega arith, omega arith, tt));
  counted = refl;
}

insert_ranges-InsertsNumber_example : InsertsNumber 6 two_ranges (insert_ranges true 6 two_ranges)
insert_ranges-InsertsNumber_example =
    insert_ranges-InsertsNumber 6 two_ranges two_ranges-IsAckGenerator (omega arith) (omega arith)

set_ignore_threhold-forgets_example :
    let m = set_ignore_threhold 8 two_ranges in
    IsRanges 0 m.ranges
    × (m.ignore_threhold ≡ 8)
    × ((i : ℕ) → covers i m.ranges ≡ (covers i two_ranges.ranges && leb m.ignore_threhold i))
set_ignore_threhold-forgets_example =
    set_ignore_threhold-forgets 8 two_ranges two_ranges-IsAckGenerator.ranges (λ i h. ground arith)

generate-Acknowledges_example : Acknowledges 50 two_ranges room
generate-Acknowledges_example =
    generate-Acknowledges 50 two_ranges room two_ranges-IsAckGenerator refl refl (omega arith)
      (omega arith) (omega arith) (omega arith)

received-Received_example : Received 6 true two_ranges (received true 6 40 true two_ranges)
received-Received_example =
    received-Received 6 40 true two_ranges two_ranges-IsAckGenerator (omega arith) (omega arith)
      refl (omega arith)
