-- ===== src/AckGenerator/Ranges.antt =====
-- The ranges of src/modules/ack_generator.c as a set of packet numbers.
use openquic.Common.{
  ℕ, ◌+◌, ◌^◌, ◌≤◌, ◌<◌, ◌≡◌, refl, arith, Bool, false, ◌&&◌, ◌||◌, List, [], ◌∷◌, leb,
}
use openquic.AckGenerator.{Range}

-- A packet number, which is below 2 ^ 62.
abbrev pub IsNumber : ℕ → Type 0
IsNumber n = n < 2 ^ 62

-- In order from `lo` on, not empty, and with a packet number at least between two ranges.
abbrev pub IsRanges : ℕ → List Range → Type 0
IsRanges lo [] = Unit
IsRanges lo (r ∷ rs) = (lo ≤ r.start) × (r.start ≤ r.end) × IsNumber r.end × IsRanges (r.end + 2) rs

abbrev pub in_range : ℕ → Range → Bool
in_range i r = leb r.start i && leb i r.end

-- Whether a packet number was received.
abbrev pub covers : ℕ → List Range → Bool
covers i [] = false
covers i (r ∷ rs) = in_range i r || covers i rs

pub covers_below : (lo i : ℕ) (rs : List Range) → IsRanges lo rs → i < lo → covers i rs ≡ false
covers_below lo i [] v h = refl
covers_below lo i (r ∷ rs) (v0, v1, v2, v3) h =
    ground (arith, covers_below (r.end + 2) i rs v3 (omega arith))

pub IsRanges-lower : (lo hi : ℕ) (rs : List Range) → lo ≤ hi → IsRanges hi rs → IsRanges lo rs
IsRanges-lower lo hi [] h v = tt
IsRanges-lower lo hi (r ∷ rs) h (v0, v1, v2, v3) = (omega arith, v1, v2, v3)
