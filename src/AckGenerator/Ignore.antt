-- ===== src/AckGenerator/Ignore.antt =====
-- quic_ack_generator_set_ignore_threhold and quic_ack_generator_ignore forget the numbers below.
use openquic.Common.{
  ℕ, ◌+◌, ◌≤◌, ◌≡◌, refl, inl, inr, arith, true, ◌&&◌, List, [], ◌∷◌, length, ltb, leb,
  if◌then◌else◌, Bool-cases,
}
use openquic.AckGenerator.{Range, AckGenerator, ignore_from, ignore, set_ignore_threhold}
use openquic.AckGenerator.Ranges.{IsRanges, covers, covers_below, IsRanges-lower}

-- What the loop should leave of the ranges from `lo` on.
record Forgets (t lo : ℕ) (rs rs' : List Range) : Type 0 where
  valid : IsRanges lo rs'
  keeps : (i : ℕ) → covers i rs' ≡ (covers i rs && leb t i)
  shorter : length rs' ≤ length rs

ignore_from-Forgets :
    (t lo : ℕ) (rs : List Range) → IsRanges lo rs → Forgets t lo rs (ignore_from t rs)
unfolding ignore_from
ignore_from-Forgets t lo [] v = record { valid = tt; keeps = λ i. refl; shorter = omega arith }
ignore_from-Forgets t lo (r ∷ rs) (v0, v1, v2, v3) = elim (Bool-cases (leb t r.start)) [
  | inl above ↦ rw above (record {
    valid = (v0, v1, v2, v3);
    keeps = λ i. ground (arith, covers_below (r.end + 2) i rs v3);
    shorter = omega arith;
  })
  | inr starts_below ↦ elim (Bool-cases (ltb r.end t)) [
    | inl below ↦
        let u : Forgets t (r.end + 2) rs (ignore_from t rs) =
          ignore_from-Forgets t (r.end + 2) rs v3 in
        rw (starts_below, below)
          (record {
            valid = IsRanges-lower lo (r.end + 2) _ (omega arith) u.valid;
            keeps = λ i. ground (arith, u.keeps i);
            shorter = omega (arith, u.shorter);
          })
    | inr across ↦
        rw (starts_below, across)
          (record {
            valid = (ground arith, ground arith, v2, v3);
            keeps = λ i. ground (arith, covers_below (r.end + 2) i rs v3);
            shorter = omega arith;
          })
  ]
]

pub length-ignore_from :
    (t lo : ℕ) (rs : List Range) → IsRanges lo rs → length (ignore_from t rs) ≤ length rs
length-ignore_from t lo rs v = let u = ignore_from-Forgets t lo rs v in u.shorter

-- After the threshold is set, the ranges are still in order, and a packet number is covered just
-- where it was covered before and is not below the threshold now in force, the greater of the old
-- one and the new, given that the numbers below the old threshold were forgotten before.
pub set_ignore_threhold-forgets :
    (num : ℕ) (m : AckGenerator)
    → IsRanges 0 m.ranges
    → ((i : ℕ) → covers i m.ranges ≡ true → leb m.ignore_threhold i ≡ true)
    → (let m' = set_ignore_threhold num m in
        IsRanges 0 m'.ranges
        × (m'.ignore_threhold ≡ (if ltb m.ignore_threhold num then num else m.ignore_threhold))
        × ((i : ℕ) → covers i m'.ranges ≡ (covers i m.ranges && leb m'.ignore_threhold i)))
unfolding set_ignore_threhold ignore
set_ignore_threhold-forgets num m v h = elim (Bool-cases (leb num m.ignore_threhold)) [
  | inl low ↦ rw low (v, ground arith, λ i. ground (arith, h i))
  | inr high ↦
      let u : Forgets num 0 m.ranges (ignore_from num m.ranges) =
        ignore_from-Forgets num 0 m.ranges v in
      rw high (u.valid, ground arith, u.keeps)
]
