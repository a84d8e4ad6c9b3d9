-- ===== src/Sorter/Defect.antt =====
-- Writes of src/sorter.c that fill a gap or meet two.
use openquic.Common.{
  ℕ, ◌+◌, ◌-◌, ◌≤◌, ◌<◌, ◌≡◌, ◌∙◌, add64, arith, Bool, true, false, List, [], ◌∷◌,
}
use openquic.Sorter.Gaps.{
  Gap, max_size, wild, fill_one, last, updated, find_start, find_end, fill_two, fill, write_gaps,
  cut_at,
}
use openquic.Sorter.Missing.{
  IsGaps, IsGaps-le, missing, gap_end_lem, missing_below, Before, find_end_stays,
}

find_end_next :
    (end : ℕ) (g h : Gap) (rest : List Gap)
    → IsGaps (g.off + g.len + 1) (h ∷ rest)
    → 1 ≤ g.len
    → h.off ≤ end
    → end < h.off + h.len
    → find_end end false g (h ∷ rest) ≡ find_end end true h rest
unfolding find_end
find_end_next end g h rest (v0, v1, v2) l p q =
    ground (arith, gap_end_lem g (h ∷ rest) l (v0, v1, v2))

find_end_here :
    (end : ℕ) (h : Gap) (rest : List Gap)
    → 1 ≤ h.len
    → IsGaps (h.off + h.len + 1) rest
    → end < h.off + h.len
    → find_end end true h rest ≡ last true h rest
unfolding find_end
find_end_here end h [] l v q = ground (arith, gap_end_lem h [] l v)
find_end_here end h (k ∷ rest) l v q = ground (arith, gap_end_lem h (k ∷ rest) l v)

-- A range that begins in the gap `g` and ends in the next one.
two_gaps :
    (start end : ℕ) (g h : Gap) (rest : List Gap)
    → IsGaps 0 (g ∷ h ∷ rest)
    → g.off ≤ start
    → start < g.off + g.len
    → h.off ≤ end
    → end < h.off + h.len
    → write_gaps true start end (g ∷ h ∷ rest) ≡ updated (fill_two start end g h rest) start end
unfolding write_gaps find_start fill
two_gaps start end g h rest (v0, v1, (v2, v3, v4)) p q r t = ground (
  arith,
  gap_end_lem g (h ∷ rest) v1 (v2, v3, v4),
  gap_end_lem h rest v3 v4,
  find_end_next end g h rest (v2, v3, v4) v1 r t,
  find_end_here end h rest v3 v4 t,
)

-- Of gaps in order, a write that fills the first two to the last byte stores both and takes the
-- first out of the list, but keeps the second: all its offsets are still missing.
pub write_gaps_keeps_filled :
    (i : ℕ) (g h : Gap) (rest : List Gap)
    → IsGaps 0 (g ∷ h ∷ rest)
    → h.off ≤ i
    → i < h.off + h.len
    → (write_gaps true g.off (h.off + h.len - 1) (g ∷ h ∷ rest)
        ≡ updated (h ∷ rest) g.off (h.off + h.len - 1))
      × (missing i (h ∷ rest) ≡ true)
      × (g.off ≤ i)
      × (i ≤ h.off + h.len - 1)
unfolding fill_two
write_gaps_keeps_filled i g h rest (v0, v1, (v2, v3, v4)) p q = (
  two_gaps g.off (h.off + h.len - 1) g h rest (v0, v1, (v2, v3, v4)) (omega arith) (omega arith)
        (omega arith) (omega arith)
      ∙ ground (arith, gap_end_lem g (h ∷ rest) v1 (v2, v3, v4), gap_end_lem h rest v3 v4),
  ground arith,
  omega arith,
  omega arith,
)

-- Of gaps in order, a write from inside of the first into the inside of the second moves the
-- second instead of shortening it: the offset behind it, which had been received, is missing
-- again.
pub write_gaps_stretches :
    (start end : ℕ) (g h : Gap) (rest : List Gap)
    → IsGaps 0 (g ∷ h ∷ rest)
    → g.off < start
    → start < g.off + g.len
    → h.off ≤ end
    → end + 1 < h.off + h.len
    → let after = cut_at start g ∷ record h { off = add64 end 1 } ∷ rest in
      (write_gaps true start end (g ∷ h ∷ rest) ≡ updated after start end)
      × (missing (h.off + h.len) (g ∷ h ∷ rest) ≡ false)
      × (missing (h.off + h.len) after ≡ true)
unfolding fill_two
write_gaps_stretches start end g h rest (v0, v1, (v2, v3, v4)) p q r t = (
  two_gaps start end g h rest (v0, v1, (v2, v3, v4)) (omega arith) q r (omega arith)
      ∙ ground (arith, gap_end_lem g (h ∷ rest) v1 (v2, v3, v4), gap_end_lem h rest v3 v4),
  ground (arith, missing_below (h.off + h.len + 1) (h.off + h.len) rest v4),
  ground (arith, IsGaps-le (h.off + h.len + 1) rest v4),
)

-- Of gaps in order, a write that covers the first and ends before the next frees it and reads its end
-- then, wherever the rest is.
pub write_gaps_reads_freed :
    (granted : Bool) (start end : ℕ) (g : Gap) (rest : List Gap)
    → IsGaps 0 (g ∷ rest)
    → start ≤ g.off
    → g.off + g.len ≤ end + 1
    → Before end rest
    → end + 1 < max_size
    → write_gaps granted start end (g ∷ rest) ≡ wild
unfolding write_gaps find_start fill fill_one
write_gaps_reads_freed granted start end g rest (v0, v1, v2) p q b m =
    let stays : find_end end false g rest ≡ last false g rest =
      find_end_stays end g rest v1 v2 b m in
    ground (arith, gap_end_lem g rest v1 v2, stays)
