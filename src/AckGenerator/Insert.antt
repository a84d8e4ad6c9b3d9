-- ===== src/AckGenerator/Insert.antt =====
-- quic_ack_generator_insert_ranges adds one packet number to the set.
use openquic.Common.{
  ℕ, ◌+◌, ◌^◌, ◌≤◌, ◌<◌, ◌≡◌, refl, inl, inr, arith, Bool, true, false, not, ◌&&◌, ◌||◌, List, [],
  ◌∷◌, Option, none, some, length, ltb, leb, ◌==◌, Bool-cases, add64, sub64,
}
use openquic.AckGenerator.{
  Range, AckGenerator, Inserted, unchanged, changed, dangling, insert_from, insert_ranges,
}
use openquic.AckGenerator.Ranges.{IsNumber, IsRanges, covers, covers_below}
use openquic.AckGenerator.Extend.{Inserts, Apart, extend_up, extend_down, Inserts-behind}

insert_from-Inserts :
    (num lo count : ℕ) (prev : Option Range) (rs : List Range)
    → IsRanges lo rs
    → Apart prev lo
    → length rs ≤ count
    → count + 1 < 2 ^ 32
    → IsNumber num
    → lo ≤ num
    → Inserts num lo count rs (insert_from true prev num count rs)
unfolding insert_from
insert_from-Inserts num lo count prev [] v a h m n l =
    (refl, (l, omega arith, n, tt), λ i. ground arith, omega arith)
insert_from-Inserts num lo count prev (r ∷ rs) (v0, v1, v2, v3) a h m n l =
    elim (Bool-cases (leb r.start num && leb num r.end)) [
      | inl inside ↦ rw inside (ground arith)
      | inr outside ↦ elim (Bool-cases (add64 r.end 1 == num)) [
        | inl up ↦
            rw (outside, up)
              (extend_up num lo count prev r rs (v0, v1, v2, v3) a (omega arith) m n (ground arith))
        | inr not_up ↦ elim (Bool-cases (sub64 r.start 1 == num)) [
          | inl down ↦
              rw (outside, not_up, down)
                (extend_down num lo count prev r rs (v0, v1, v2, v3) a (omega arith) m l
                  (ground arith))
          | inr not_down ↦ elim (Bool-cases (ltb num r.start)) [
            | inl below ↦
                rw (outside, not_up, not_down, below)
                  (
                    ground (arith, covers_below (r.end + 2) num rs v3),
                    (l, omega arith, n, (ground arith, v1, v2, v3)),
                    λ i. ground arith,
                    omega arith,
                  )
            | inr above ↦
                rw (outside, not_up, not_down, above)
                  (Inserts-behind num lo count r rs _ v0 v1 v2 (ground arith) (
                    insert_from-Inserts num (r.end + 2) count (some r) rs v3 (omega arith)
                      (omega arith) m n (ground arith)))
          ]
        ]
      ]
    ]

-- The ranges are in order, and counted.
pub record IsAckGenerator (m : AckGenerator) : Type 0 where
  pub ranges : IsRanges 0 m.ranges
  pub counted : m.ranges_count ≡ length m.ranges

-- What quic_ack_generator_insert_ranges returns and leaves.
pub record InsertsNumber (num : ℕ) (m : AckGenerator) (r : Option (Bool × AckGenerator))
    : Type 0 where
  pub answer : Bool
  pub after : AckGenerator
  pub result : r ≡ some (answer, after)
  pub is_new : answer ≡ not (covers num m.ranges)
  pub valid : IsAckGenerator after
  pub adds : (i : ℕ) → covers i after.ranges ≡ (covers i m.ranges || i == num)
  pub rest : after ≡ record m { ranges = after.ranges; ranges_count = after.ranges_count }

by_result :
    (num : ℕ) (m : AckGenerator) (f : Inserted)
    → IsAckGenerator m
    → insert_from true none num m.ranges_count m.ranges ≡ f
    → Inserts num 0 m.ranges_count m.ranges f
    → InsertsNumber num m (insert_ranges true num m)
unfolding insert_ranges
by_result num m unchanged v e x = record {
  answer = false;
  after = m;
  result = rw (e, insert_ranges);
  is_new = ground arith;
  valid = v;
  adds = λ i. ground (arith, same i);
  rest = refl;
}
  where
    same : (i : ℕ) → (i == num) ≡ true → covers i m.ranges ≡ true
    same i q = let k : i ≡ num = ground arith in rw k x
by_result num m (changed rs n) v e (c, w, s, k) = record {
  answer = true;
  after = record m { ranges = rs; ranges_count = n };
  result = rw (e, insert_ranges);
  is_new = ground arith;
  valid = record { ranges = w; counted = omega (arith, v.counted) };
  adds = s;
  rest = refl;
}
by_result num m dangling v e x = absurd x

-- With memory for a range, and ranges that are valid, counted and not too many for 32 bits,
-- inserting a packet number below 2 ^ 62 adds just it to the set, keeps the ranges in order,
-- apart and counted, never reads a freed range, returns true just where the number was new, and
-- keeps all else.
pub insert_ranges-InsertsNumber :
    (num : ℕ) (m : AckGenerator)
    → IsAckGenerator m
    → IsNumber num
    → length m.ranges + 1 < 2 ^ 32
    → InsertsNumber num m (insert_ranges true num m)
insert_ranges-InsertsNumber num m v n h = by_result num m _ v refl (
    insert_from-Inserts num 0 m.ranges_count none m.ranges v.ranges tt (omega (arith, v.counted))
      (omega (arith, v.counted)) n (omega arith))
