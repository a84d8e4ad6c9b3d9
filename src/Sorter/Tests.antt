-- ===== src/Sorter/Tests.antt =====
-- Runs of src/sorter.c and witnesses.
use openquic.Common.{List, [], ◌∷◌, ◌≡◌, refl, arith, true, some}
use openquic.Sorter.Samples.{table, count_up, fresh, bytes, bytes_carry, ready, ready-Holds}
use openquic.Sorter.Gaps.{Gap}
use openquic.Sorter.{init, write, read, peek}
use openquic.Sorter.Window.{window}
use openquic.Sorter.Missing.{IsGaps}
use openquic.Sorter.Stream.{Holds, Wrote, write-Holds, read-Holds, init-Holds}

init-fresh : init table true ≡ some fresh
unfolding init
init-fresh = refl

write-Holds_example : Wrote table count_up 2 2 fresh (write table true (λ k. true) 2 bytes fresh)
write-Holds_example =
    write-Holds table count_up 2 bytes (λ k. true) fresh
      (init-Holds table count_up fresh init-fresh) bytes_carry (λ k. refl) (omega arith)
      ((λ h. tt), (λ h. omega arith), tt)

read-Holds_example :
    ((read table 9 ready).0 ≡ window count_up 0 2)
    × (peek table 9 ready ≡ window count_up 0 2)
    × ((read table 9 ready).1.readed_size ≡ 2)
    × Holds table count_up (read table 9 ready).1
read-Holds_example = read-Holds table count_up 9 ready ready-Holds

-- The offsets 0 to 2, 4 and 5, and all from 8 on are missing.
abbrev behind_two : List Gap
behind_two = record { off = 8; len = 9223372036854775799 } ∷ []

abbrev three_gaps : List Gap
three_gaps = record { off = 0; len = 3 } ∷ record { off = 4; len = 2 } ∷ behind_two

three_gaps-IsGaps : IsGaps 0 three_gaps
three_gaps-IsGaps =
    (omega arith, omega arith, (omega arith, omega arith, (omega arith, omega arith, refl)))
