-- ===== src/Sorter/Gaps.antt =====
-- The gaps of quic_sorter_write in src/sorter.c: what has not been received.
use openquic.Common.{
  ℕ, ◌-◌, ◌^◌, Bool, true, false, ◌&&◌, List, [], ◌∷◌, ◌++◌, ltb, leb, ◌==◌, if◌then◌else◌, add64,
  sub64,
}

-- quic_sorter_gap_t
pub record Gap : Type 0 where
  pub off : ℕ
  pub len : ℕ

-- QUIC_SORTER_MAX_SIZE
abbrev pub max_size : ℕ
max_size = 2 ^ 63 - 1

-- quic_sorter_gap_end
abbrev pub gap_end : Gap → ℕ
gap_end g = sub64 (add64 g.off g.len) 1

-- Where the first loop stops: with nothing missing, at a gap, or past the last one.
pub data Search : Type 0 where
  nothing_missing : Search
  at : List Gap → Gap → List Gap → Search
  past_last : Search

abbrev pub prepend : Gap → Search → Search
prepend g nothing_missing = nothing_missing
prepend g (at before s after) = at (g ∷ before) s after
prepend g past_last = past_last

-- The loop that looks for `start_gap`.
unfoldable pub find_start : ℕ → ℕ → List Gap → Search
find_start start end [] = past_last
find_start start end (g ∷ gs) =
    if ltb end g.off
    then nothing_missing
    else if leb start (gap_end g) && leb g.off end
    then at [] g gs
    else prepend g (find_start start end gs)

-- Where the second loop stops: at `end_gap`, with the gaps behind it, or past the last one.
pub data Last : Type 0 where
  last : Bool → Gap → List Gap → Last
  no_next : Last

-- The loop that looks for `end_gap`. `moved` tells that it is no longer `start_gap`; the gaps
-- between the two are removed.
unfoldable pub find_end : ℕ → Bool → Gap → List Gap → Last
find_end end moved g [] = if ltb (gap_end g) end then no_next else last moved g []
find_end end moved g (next ∷ gs) =
    if ltb (gap_end g) end
    then (if ltb end next.off then last moved g (next ∷ gs) else find_end end true next gs)
    else last moved g (next ∷ gs)

-- What becomes of the gaps: nothing to do, no memory for a split, the new list with the first
-- and last offset to be stored, or a read of the list's head as a gap, or of a gap that was freed.
pub data Filled : Type 0 where
  covered : Filled
  no_memory : Filled
  updated : List Gap → ℕ → ℕ → Filled
  wild : Filled

-- `start_gap->len = start - 1 - quic_sorter_gap_start(start_gap) + 1`
abbrev pub cut_at : ℕ → Gap → Gap
cut_at start s = record s { len = add64 (sub64 (sub64 start 1) s.off) 1 }

-- The `if` chain of quic_sorter_write, where `start_gap` is `s` and `end_gap` is another gap `e`.
unfoldable pub fill_two : ℕ → ℕ → Gap → Gap → List Gap → List Gap
fill_two start end s e rest =
    if start == s.off
    then (let e' =
          (if ltb end (gap_end e)
            then record { off = add64 end 1; len = sub64 (gap_end e) end }
            else e) in
        if leb (gap_end s) end then e' ∷ rest else s ∷ e' ∷ rest)
    else if end == gap_end e
    then cut_at start s ∷ e ∷ rest
    else cut_at start s ∷ record e { off = add64 end 1 } ∷ rest

-- The same where both are `s`. Where the write fills the gap, it is freed, and then its end is read:
-- that is `wild`.
unfoldable pub fill_one : Bool → ℕ → ℕ → Gap → List Gap → Filled
fill_one granted start end s rest =
    if start == s.off
    then (if leb (gap_end s) end
        then wild
        else updated (record { off = add64 end 1; len = sub64 (gap_end s) end } ∷ rest) start end)
    else if end == gap_end s
    then updated (cut_at start s ∷ rest) start end
    else if granted
    then updated
        (cut_at start s
          ∷ record { off = add64 end 1; len = add64 (sub64 (gap_end s) (add64 end 1)) 1 }
          ∷ rest)
        start end
    else no_memory

-- From the gap where the first loop stopped: `start` and `end` are cut to the gaps.
unfoldable pub fill : Bool → ℕ → ℕ → Gap → List Gap → Filled
unfolding find_end fill_one fill_two
fill granted start end s after =
    let start' = (if ltb start s.off then s.off else start) in
    elim (find_end end false s after) [
      | last false e rest ↦
          fill_one granted start' (if ltb (gap_end e) end then gap_end e else end) s rest
      | last true e rest ↦
          let end' = (if ltb (gap_end e) end then gap_end e else end) in
          updated (fill_two start' end' s e rest) start' end'
      | no_next ↦ wild
    ]

abbrev pub behind : List Gap → Filled → Filled
behind before covered = covered
behind before no_memory = no_memory
behind before (updated gs start end) = updated (before ++ gs) start end
behind before wild = wild

-- Lines 56 to 120 of quic_sorter_write, for bytes `start` to `end`.
unfoldable pub write_gaps : Bool → ℕ → ℕ → List Gap → Filled
unfolding find_start fill
write_gaps granted start end gs = elim (find_start start end gs) [
  | nothing_missing ↦ covered
  | at before s after ↦ behind before (fill granted start end s after)
  | past_last ↦ wild
]
