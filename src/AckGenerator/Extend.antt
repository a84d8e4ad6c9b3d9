-- ===== src/AckGenerator/Extend.antt =====
-- quic_ack_generator_insert_ranges at one range: it is extended, and joined with its neighbours.
use openquic.Common.{
  ℕ, ◌+◌, ◌^◌, ◌≤◌, ◌<◌, ◌≡◌, refl, ◌⊎◌, inl, inr, arith, true, false, ◌||◌, List, [], ◌∷◌, Option,
  none, some, length, ◌==◌, Bool-cases, add64, sub64,
}
use openquic.AckGenerator.{Range, Inserted, unchanged, changed, dangling, behind, merge_next, merge}
use openquic.AckGenerator.Ranges.{IsNumber, IsRanges, in_range, covers, covers_below}

-- What the loop should do to the ranges from `lo` on, and to the count of all ranges.
abbrev pub Inserts : ℕ → ℕ → ℕ → List Range → Inserted → Type 0
Inserts num lo count rs unchanged = covers num rs ≡ true
Inserts num lo count rs dangling = ⊥
Inserts num lo count rs (changed rs' n) =
    (covers num rs ≡ false)
    × IsRanges lo rs'
    × ((i : ℕ) → covers i rs' ≡ (covers i rs || i == num))
    × (n + length rs ≡ count + length rs')

-- The range before `lo`, if there is one, does not touch what follows, nor the new number.
abbrev pub Apart : Option Range → ℕ → Type 0
Apart none lo = Unit
Apart (some p) lo = p.end + 2 ≤ lo

merge-merge_next :
    (prev : Option Range) (lo count : ℕ) (r : Range) (rs : List Range)
    → Apart prev lo
    → lo ≤ r.start
    → r.start < 2 ^ 62
    → merge prev r rs count ≡ merge_next r rs count
unfolding merge
merge-merge_next none lo count r rs a h k = refl
merge-merge_next (some p) lo count r rs a h k = ground arith

-- A range that was extended by `num`, at either end.
record Extended (num lo : ℕ) (old new : Range) (rs : List Range) : Type 0 where
  first : lo ≤ new.start
  ordered : new.start ≤ new.end
  number : IsNumber new.end
  same : (i : ℕ) → in_range i new ≡ (in_range i old || i == num)
  keeps : new.end ≤ old.end + 1
  starts : old.start ≤ new.start + 1
  outside : in_range num old ≡ false
  tail : IsRanges (old.end + 2) rs

merge_next-Inserts :
    (num lo count : ℕ) (old new : Range) (rs : List Range)
    → Extended num lo old new rs
    → length rs < count
    → count + 1 < 2 ^ 32
    → (new.end ≡ old.end) ⊎ (new.end ≡ num)
    → num ≤ old.end + 1
    → Inserts num lo count (old ∷ rs) (merge_next new rs count)
unfolding merge_next
merge_next-Inserts num lo count old new [] v h m o k = (
  ground (arith, v.outside),
  (v.first, v.ordered, v.number, tt),
  λ i. ground (arith, v.same i),
  omega arith,
)
merge_next-Inserts num lo count old new (next ∷ rs) v h m o k =
    let (t0, t1, t2, t3) = v.tail in
    elim (Bool-cases (sub64 next.start 1 == new.end)) [
      | inl joins ↦ rw joins (
        ground (arith, v.outside, covers_below (next.end + 2) num rs t3),
        (v.first, omega (arith, v.ordered, v.keeps), t2, t3),
        λ i. ground (arith, v.same i, v.ordered, v.keeps, v.starts, o),
        omega arith,
      )
      | inr apart ↦ rw apart (
        ground (arith, v.outside, covers_below (next.end + 2) num rs t3),
        (v.first, v.ordered, v.number, (ground (arith, v.keeps), t1, t2, t3)),
        λ i. ground (arith, v.same i),
        omega arith,
      )
    ]

-- The loop at a range that `num` touches from above or from below.
pub extend_up :
    (num lo count : ℕ) (prev : Option Range) (r : Range) (rs : List Range)
    → IsRanges lo (r ∷ rs)
    → Apart prev lo
    → length rs < count
    → count + 1 < 2 ^ 32
    → IsNumber num
    → r.end + 1 ≡ num
    → Inserts num lo count (r ∷ rs) (merge prev (record r { end = add64 r.end 1 }) rs count)
extend_up num lo count prev r rs (v0, v1, v2, v3) a h m n e =
    rw (merge-merge_next prev lo count (record r { end = add64 r.end 1 }) rs a v0 (omega arith)) (
      merge_next-Inserts num lo count r (record r { end = add64 r.end 1 }) rs
        (record {
          first = v0;
          ordered = omega arith;
          number = omega arith;
          same = λ i. ground arith;
          keeps = omega arith;
          starts = omega arith;
          outside = ground arith;
          tail = v3;
        })
        h m (inr (omega arith)) (omega arith))

pub extend_down :
    (num lo count : ℕ) (prev : Option Range) (r : Range) (rs : List Range)
    → IsRanges lo (r ∷ rs)
    → Apart prev lo
    → length rs < count
    → count + 1 < 2 ^ 32
    → lo ≤ num
    → num + 1 ≡ r.start
    → Inserts num lo count (r ∷ rs) (merge prev (record r { start = sub64 r.start 1 }) rs count)
extend_down num lo count prev r rs (v0, v1, v2, v3) a h m n e =
    rw
      (merge-merge_next prev lo count (record r { start = sub64 r.start 1 }) rs a (omega arith)
        (omega arith))
      (merge_next-Inserts num lo count r (record r { start = sub64 r.start 1 }) rs
        (record {
          first = omega arith;
          ordered = omega arith;
          number = v2;
          same = λ i. ground arith;
          keeps = omega arith;
          starts = omega arith;
          outside = ground arith;
          tail = v3;
        })
        h m (inl refl) (omega arith))

pub Inserts-behind :
    (num lo count : ℕ) (r : Range) (rs : List Range) (f : Inserted)
    → lo ≤ r.start
    → r.start ≤ r.end
    → IsNumber r.end
    → r.end + 2 ≤ num
    → Inserts num (r.end + 2) count rs f
    → Inserts num lo count (r ∷ rs) (behind r f)
Inserts-behind num lo count r rs unchanged v0 v1 v2 k x = ground arith
Inserts-behind num lo count r rs dangling v0 v1 v2 k x = x
Inserts-behind num lo count r rs (changed rs' n) v0 v1 v2 k (c, v, s, e) =
    (ground arith, (v0, v1, v2, v), λ i. ground (arith, s i), omega arith)
