-- ===== src/Sorter/Missing.antt =====
-- The gaps of src/sorter.c as a set of missing offsets.
use openquic.Common.{
  ℕ, ◌+◌, ◌^◌, ◌≤◌, ◌<◌, ◌≡◌, refl, inl, inr, arith, Bool, true, false, not, ◌&&◌, ◌||◌, List, [],
  ◌∷◌, ltb, leb, Bool-cases,
}
use openquic.Sorter.Gaps.{
  Gap, max_size, gap_end, last, find_end, Filled, covered, no_memory, updated, wild,
}

-- In order, apart, not empty, from `lo` on, and the last one reaches up to the greatest size.
abbrev pub IsGaps : ℕ → List Gap → Type 0
IsGaps lo [] = lo ≡ 2 ^ 63
IsGaps lo (g ∷ gs) = (lo ≤ g.off) × (1 ≤ g.len) × IsGaps (g.off + g.len + 1) gs

-- Whether an offset lies in a gap.
abbrev pub missing : ℕ → List Gap → Bool
missing i [] = false
missing i (g ∷ gs) = (leb g.off i && ltb i (g.off + g.len)) || missing i gs

abbrev pub Before : ℕ → List Gap → Type 0
Before end [] = Unit
Before end (g ∷ gs) = end < g.off

-- The bytes from `start` to `end` meet one gap at most, and do not fill it: where they begin before
-- the end of one, they end before the next; and where they begin no later than one, they end before
-- its last offset.
abbrev pub MeetsPart : ℕ → ℕ → List Gap → Type 0
MeetsPart start end [] = Unit
MeetsPart start end (g ∷ gs) =
    (start < g.off + g.len → Before end gs)
    × (start ≤ g.off → end + 1 < g.off + g.len)
    × MeetsPart start end gs

pub IsGaps-le : (lo : ℕ) (gs : List Gap) → IsGaps lo gs → lo ≤ 2 ^ 63
IsGaps-le lo [] h = omega arith
IsGaps-le lo (g ∷ gs) (h0, h1, h2) = omega (arith, IsGaps-le (g.off + g.len + 1) gs h2)

pub missing_below : (lo i : ℕ) (gs : List Gap) → IsGaps lo gs → i < lo → missing i gs ≡ false
missing_below lo i [] h k = refl
missing_below lo i (g ∷ gs) (h0, h1, h2) k =
    ground (arith, missing_below (g.off + g.len + 1) i gs h2 (omega arith))

pub missing-Before :
    (lo end i : ℕ) (gs : List Gap) → IsGaps lo gs → Before end gs → i ≤ end → missing i gs ≡ false
missing-Before lo end i [] h b k = refl
missing-Before lo end i (g ∷ gs) (h0, h1, h2) b k =
    ground (arith, missing_below (g.off + g.len + 1) i gs h2 (omega arith))

-- What a write of the bytes `start` to `end` should do to the gaps: take just these offsets out,
-- and store at least those of them that were missing.
abbrev pub Exact : ℕ → ℕ → ℕ → List Gap → Filled → Type 0
Exact start end lo gs covered = (i : ℕ) → start ≤ i → i ≤ end → missing i gs ≡ false
Exact start end lo gs no_memory = ⊥
Exact start end lo gs wild = ⊥
Exact start end lo gs (updated gs' start' end') =
    IsGaps lo gs'
    × ((i : ℕ) → missing i gs' ≡ (missing i gs && not (leb start i && leb i end)))
    × (start ≤ start')
    × (start' ≤ end')
    × (end' ≤ end)
    × ((i : ℕ) → start ≤ i → i ≤ end → missing i gs ≡ true → (start' ≤ i) × (i ≤ end'))

pub gap_end_lem :
    (g : Gap) (gs : List Gap)
    → 1 ≤ g.len
    → IsGaps (g.off + g.len + 1) gs
    → gap_end g + 1 ≡ g.off + g.len
gap_end_lem g gs h v = omega (arith, IsGaps-le (g.off + g.len + 1) gs v)

-- The second loop stays where the first one stopped.
pub find_end_stays :
    (end : ℕ) (s : Gap) (after : List Gap)
    → 1 ≤ s.len
    → IsGaps (s.off + s.len + 1) after
    → Before end after
    → end + 1 < max_size
    → find_end end false s after ≡ last false s after
unfolding find_end
find_end_stays end s [] h v b m = ground (arith, gap_end_lem s [] h v)
find_end_stays end s (g ∷ gs) h v b m = ground arith

-- A list behind a gap that was cut or taken out.
pub IsGaps-weaken :
    (lo lo' : ℕ) (gs : List Gap) → lo < 2 ^ 63 → lo' ≤ lo → IsGaps lo gs → IsGaps lo' gs
IsGaps-weaken lo lo' [] m k h = absurd (omega arith)
IsGaps-weaken lo lo' (g ∷ gs) m k (h0, h1, h2) = (omega arith, h1, h2)

-- The offset that the first gap begins at.
abbrev pub first_off : List Gap → ℕ
first_off [] = 0
first_off (g ∷ gs) = g.off

pub first_off-missing : (gs : List Gap) → IsGaps 0 gs → missing (first_off gs) gs ≡ true
first_off-missing [] v = absurd (omega arith)
first_off-missing (g ∷ gs) (v0, v1, v2) = ground arith

pub missing_below_first :
    (i : ℕ) (gs : List Gap) → IsGaps 0 gs → i < first_off gs → missing i gs ≡ false
missing_below_first i [] v h = refl
missing_below_first i (g ∷ gs) (v0, v1, v2) h =
    ground (arith, missing_below (g.off + g.len + 1) i gs v2 (omega arith))

-- Offsets that are no longer missing can only push the first gap back.
pub first_off_mono :
    (gs gs' : List Gap)
    → IsGaps 0 gs
    → IsGaps 0 gs'
    → ((i : ℕ) → missing i gs' ≡ true → missing i gs ≡ true)
    → first_off gs ≤ first_off gs'
first_off_mono gs gs' v v' h = elim (Bool-cases (ltb (first_off gs') (first_off gs))) [
  | inl less ↦ absurd (
      ground (
        arith,
        h (first_off gs') (first_off-missing gs' v'),
        missing_below_first (first_off gs') gs v (ground arith),
      ))
  | inr le ↦ ground arith
]

pub first_off-le : (gs : List Gap) → IsGaps 0 gs → first_off gs < max_size
first_off-le [] v = absurd (omega arith)
first_off-le (g ∷ gs) (v0, v1, v2) = omega (arith, IsGaps-le (g.off + g.len + 1) gs v2)
