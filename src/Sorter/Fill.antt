-- ===== src/Sorter/Fill.antt =====
-- The gaps of src/sorter.c as a set of missing offsets, and writes that meet one gap at most and do not
-- fill it.
use openquic.Common.{
  ℕ, ◌+◌, ◌-◌, ◌^◌, ◌≤◌, ◌<◌, ◌≡◌, refl, ◌∙◌, inl, inr, arith, Bool, true, not, ◌&&◌, List, [], ◌∷◌,
  ltb, leb, ◌==◌, if◌then◌else◌, Bool-cases, ltb→lt,
}
use openquic.Sorter.Gaps.{
  Gap, max_size, gap_end, Search, nothing_missing, at, past_last, prepend, find_start, Filled,
  covered, no_memory, updated, wild, fill_one, fill, behind, write_gaps,
}
use openquic.Sorter.Missing.{
  IsGaps, missing, Before, MeetsPart, IsGaps-le, missing_below, missing-Before, Exact, gap_end_lem,
  find_end_stays, IsGaps-weaken,
}

-- A gap with the offsets from `a` to `b`, both inside of it, taken out.
abbrev pieces : ℕ → ℕ → Gap → List Gap → List Gap
pieces a b s rest =
    let right =
      (if b + 1 == s.off + s.len
        then rest
        else record { off = b + 1; len = s.off + s.len - (b + 1) } ∷ rest) in
    if a == s.off then right else record { off = s.off; len = a - s.off } ∷ right

record Inside (a b : ℕ) (s : Gap) (rest : List Gap) : Type 0 where
  starts : s.off ≤ a
  ordered : a ≤ b
  ends : b < s.off + s.len
  size : 1 ≤ s.len
  tail : IsGaps (s.off + s.len + 1) rest
  small : b + 1 < max_size
  part : a ≡ s.off → b + 1 < s.off + s.len

fill_one-pieces :
    (a b : ℕ) (s : Gap) (rest : List Gap)
    → Inside a b s rest
    → fill_one true a b s rest ≡ updated (pieces a b s rest) a b
unfolding fill_one
fill_one-pieces a b s rest v =
    ground (arith, gap_end_lem s rest v.size v.tail, IsGaps-le (s.off + s.len + 1) rest v.tail)

pieces-IsGaps :
    (lo a b : ℕ) (s : Gap) (rest : List Gap)
    → lo ≤ s.off
    → Inside a b s rest
    → IsGaps lo (pieces a b s rest)
pieces-IsGaps lo a b s rest l v =
    let e : s.off + s.len + 1 ≤ 2 ^ 63 = IsGaps-le (s.off + s.len + 1) rest v.tail in
    elim (Bool-cases (b + 1 == s.off + s.len)) [
      | inl whole ↦
          let m : s.off + s.len + 1 < 2 ^ 63 = ground arith in
          elim (Bool-cases (a == s.off)) [
            | inl h ↦
                rw (whole, h) (IsGaps-weaken (s.off + s.len + 1) lo rest m (omega arith) v.tail)
            | inr h ↦
                rw (whole, h)
                  (
                    l,
                    ground arith,
                    IsGaps-weaken (s.off + s.len + 1) _ rest m (ground arith) v.tail,
                  )
          ]
      | inr part ↦
          let t : IsGaps (b + 1 + (s.off + s.len - (b + 1)) + 1) rest =
            let j : s.off + s.len + 1 ≡ b + 1 + (s.off + s.len - (b + 1)) + 1 = omega arith in
            rw j at v.tail in
          elim (Bool-cases (a == s.off)) [
            | inl h ↦ rw (part, h) (omega arith, ground arith, t)
            | inr h ↦ rw (part, h) (l, ground arith, (ground arith, ground arith, t))
          ]
    ]

missing-pieces :
    (a b i : ℕ) (s : Gap) (rest : List Gap)
    → Inside a b s rest
    → missing i (pieces a b s rest) ≡ (missing i (s ∷ rest) && not (leb a i && leb i b))
missing-pieces a b i s rest v = ground (arith, missing_below (s.off + s.len + 1) i rest v.tail)

-- The bytes from `start` to `end` begin or go on in the gap `s`, and end before the next one.
record Meets (start end : ℕ) (s : Gap) (after : List Gap) : Type 0 where
  begins : start < s.off + s.len
  reaches : s.off ≤ end
  ordered : start ≤ end
  stops : Before end after
  size : 1 ≤ s.len
  tail : IsGaps (s.off + s.len + 1) after
  small : end + 1 < max_size
  part : start ≤ s.off → end + 1 < s.off + s.len

Exact-at :
    (lo start end a b : ℕ) (s : Gap) (after : List Gap)
    → lo ≤ s.off
    → Meets start end s after
    → a ≡ (if ltb start s.off then s.off else start)
    → b ≡ (if ltb (gap_end s) end then gap_end s else end)
    → Exact start end lo (s ∷ after) (fill_one true a b s after)
Exact-at lo start end a b s after l v ea eb = rw (fill_one-pieces a b s after inside) (
  pieces-IsGaps lo a b s after l inside,
  λ i.
      missing-pieces a b i s after inside
      ∙ ground (
        arith,
        top,
        missing_below (s.off + s.len + 1) i after v.tail,
        missing-Before (s.off + s.len + 1) end i after v.tail v.stops,
      ),
  ground arith,
  ground (arith, top),
  ground (arith, top),
  λ i p q m. ground (arith, top, missing-Before (s.off + s.len + 1) end i after v.tail v.stops q),
)
  where
    top : gap_end s + 1 ≡ s.off + s.len
    top = gap_end_lem s after v.size v.tail

    inside : Inside a b s after
    inside = record {
      starts = ground arith;
      ordered = ground (arith, top, v);
      ends = ground (arith, top, v);
      size = v.size;
      tail = v.tail;
      small = ground (arith, v);
      part = λ e. ground (arith, top, v, v.part);
    }

fill-fill_one :
    (start end : ℕ) (s : Gap) (after : List Gap)
    → Meets start end s after
    → fill true start end s after
      ≡ fill_one true
          (if ltb start s.off then s.off else start)
          (if ltb (gap_end s) end then gap_end s else end)
          s
          after
unfolding fill
fill-fill_one start end s after v =
    rw (find_end_stays end s after v.size v.tail v.stops v.small, fill)

fill-Exact :
    (lo start end : ℕ) (s : Gap) (after : List Gap)
    → lo ≤ s.off
    → Meets start end s after
    → Exact start end lo (s ∷ after) (fill true start end s after)
fill-Exact lo start end s after l v =
    rw (fill-fill_one start end s after v) (Exact-at lo start end _ _ s after l v refl refl)

behind-nil : (f : Filled) → behind [] f ≡ f
behind-nil covered = refl
behind-nil no_memory = refl
behind-nil (updated gs a b) = refl
behind-nil wild = refl

behind-behind :
    (g : Gap) (before : List Gap) (f : Filled)
    → behind (g ∷ before) f ≡ behind (g ∷ []) (behind before f)
behind-behind g before covered = refl
behind-behind g before no_memory = refl
behind-behind g before (updated gs a b) = refl
behind-behind g before wild = refl

abbrev searched : Bool → ℕ → ℕ → Search → Filled
searched granted start end nothing_missing = covered
searched granted start end (at before s after) = behind before (fill granted start end s after)
searched granted start end past_last = wild

searched-prepend :
    (granted : Bool) (start end : ℕ) (g : Gap) (r : Search)
    → searched granted start end (prepend g r) ≡ behind (g ∷ []) (searched granted start end r)
searched-prepend granted start end g nothing_missing = refl
searched-prepend granted start end g (at before s after) = behind-behind g before _
searched-prepend granted start end g past_last = refl

-- A gap that the range lies behind stays, and the rest decides.
Exact-behind :
    (lo start end : ℕ) (g : Gap) (gs : List Gap) (f : Filled)
    → lo ≤ g.off
    → 1 ≤ g.len
    → g.off + g.len ≤ start
    → Exact start end (g.off + g.len + 1) gs f
    → Exact start end lo (g ∷ gs) (behind (g ∷ []) f)
Exact-behind lo start end g gs covered l h k x = λ i p q. ground (arith, x i p q)
Exact-behind lo start end g gs no_memory l h k x = x
Exact-behind lo start end g gs wild l h k x = x
Exact-behind lo start end g gs (updated gs' a b) l h k (v, m, p, q, r, c) =
    ((l, h, v), λ i. ground (arith, m i), p, q, r, λ i s t n. c i s t (ground arith))

searched-Exact :
    (lo start end : ℕ) (gs : List Gap)
    → IsGaps lo gs
    → MeetsPart start end gs
    → start ≤ end
    → end + 1 < max_size
    → lo ≤ end + 1
    → Exact start end lo gs (searched true start end (find_start start end gs))
unfolding find_start
searched-Exact lo start end [] v o h m n = absurd (omega arith)
searched-Exact lo start end (g ∷ gs) (v0, v1, v2) (o, part, os) h m n =
    elim (Bool-cases (ltb end g.off)) [
      | inl early ↦
          rw early
            (λ i p q. missing-Before lo end i (g ∷ gs) (v0, v1, v2) (ltb→lt end g.off early) q)
      | inr late ↦ elim (Bool-cases (leb start (gap_end g) && leb g.off end)) [
        | inl here ↦
            rw (late, here, behind-nil (fill true start end g gs))
              (fill-Exact lo start end g gs v0 (record {
                begins = ground (arith, gap_end_lem g gs v1 v2);
                reaches = ground arith;
                ordered = h;
                stops = o (ground (arith, gap_end_lem g gs v1 v2));
                size = v1;
                tail = v2;
                small = m;
                part = part;
              }))
        | inr there ↦
            rw (late, there, searched-prepend)
              (Exact-behind lo start end g gs _ v0 v1 (ground (arith, gap_end_lem g gs v1 v2)) (
                searched-Exact (g.off + g.len + 1) start end gs v2 os h m
                  (ground (arith, gap_end_lem g gs v1 v2))))
      ]
    ]

-- On gaps in order, where memory is granted, a write that ends below the greatest size and meets
-- one gap at most and does not fill it takes just its offsets out of the missing ones, keeps the list of gaps in
-- order, and selects a range to be stored that has all that was missing.
pub write_gaps-Exact :
    (lo start end : ℕ) (gs : List Gap)
    → IsGaps lo gs
    → MeetsPart start end gs
    → start ≤ end
    → end + 1 < max_size
    → lo ≤ end + 1
    → Exact start end lo gs (write_gaps true start end gs)
unfolding write_gaps
write_gaps-Exact lo start end gs v o h m n =
    split (find_start start end gs) (searched-Exact lo start end gs v o h m n)
  where
    split :
        (r : Search)
        → Exact start end lo gs (searched true start end r)
        → Exact start end lo gs (elim r [
          | nothing_missing ↦ covered
          | at before s after ↦ behind before (fill true start end s after)
          | past_last ↦ wild
        ])
    split nothing_missing x = x
    split (at before s after) x = x
    split past_last x = x
