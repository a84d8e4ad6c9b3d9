-- ===== src/Framer/Active.antt =====
-- The set and the queue of active streams.
use openquic.Common.{
  ℕ, ◌+◌, ◌≤◌, ◌≡◌, refl, arith, true, false, Bool-cases, inl, inr, ◌⊎◌, List, [], ◌∷◌, ◌++◌, ◌==◌,
  if◌then◌else◌, success,
}
use openquic.Framer.{Framer, has, remove, add_active}

abbrev pub count : ℕ → List ℕ → ℕ
count k [] = 0
count k (j ∷ js) = (if j == k then 1 else 0) + count k js

-- A stream is in the set once at most, and in the queue just as often.
abbrev pub IsActive : Framer → Type 0
IsActive m = (k : ℕ) → (count k m.active_queue ≡ count k m.active_set) × (count k m.active_set ≤ 1)

pub count-append : (k : ℕ) (xs ys : List ℕ) → count k (xs ++ ys) ≡ count k xs + count k ys
count-append k [] ys = omega arith
count-append k (x ∷ xs) ys = omega (arith, count-append k xs ys)

has-count : (k : ℕ) (xs : List ℕ) → has k xs ≡ false → count k xs ≡ 0
unfolding has
has-count k [] e = refl
has-count k (x ∷ xs) e = ground (arith, has-count k xs)

pub has-one : (k : ℕ) (xs : List ℕ) → has k xs ≡ true → 1 ≤ count k xs
unfolding has
has-one k [] e = cc
has-one k (x ∷ xs) e = ground (arith, has-one k xs)

pub count-remove :
    (k j : ℕ) (xs : List ℕ)
    → 1 ≤ count k xs
    → count j (remove k xs) + (if k == j then 1 else 0) ≡ count j xs
unfolding remove
count-remove k j [] h = absurd (omega arith)
count-remove k j (x ∷ xs) h = elim (Bool-cases (x == k)) [
  | inl same ↦ rw same (ground arith)
  | inr other ↦
      let h' : 1 ≤ count k xs = ground arith in rw other (ground (arith, count-remove k j xs h'))
]

-- Where memory is granted, and the queue has just the active streams, each once, it is so after
-- quic_framer_add_active; the stream is in the queue once, at its end if it was not active, and
-- nothing else in the queue changes; the sender is activated.
pub add_active-IsActive :
    (sid : ℕ) (m : Framer)
    → IsActive m
    → (m' : Framer) × (add_active true true sid m ≡ (success, m', true))
      × IsActive m'
      × (count sid m'.active_queue ≡ 1)
      × ((m'.active_queue ≡ m.active_queue) ⊎ (m'.active_queue ≡ m.active_queue ++ sid ∷ []))
unfolding add_active
add_active-IsActive sid m h = elim (Bool-cases (has sid m.active_set)) [
  | inl there ↦ (
    m,
    rw (there, add_active),
    h,
    (let (a, b) = h sid in omega (arith, has-one sid m.active_set there)),
    inl refl,
  )
  | inr new ↦ (
    record m { active_set = sid ∷ m.active_set; active_queue = m.active_queue ++ sid ∷ [] },
    rw (new, add_active),
    added new,
    one new,
    inr refl,
  )
]
  where
    absent : has sid m.active_set ≡ false → count sid m.active_set ≡ 0
    absent e = has-count sid m.active_set e

    added :
        has sid m.active_set ≡ false
        → (k : ℕ)
        → (count k (m.active_queue ++ sid ∷ []) ≡ count k (sid ∷ m.active_set))
          × (count k (sid ∷ m.active_set) ≤ 1)
    added e k =
        let (a, b) = h k in
        elim (Bool-cases (sid == k)) [
          | inl same ↦
              let z : count k m.active_set ≡ 0 = ground (arith, absent e) in
              (ground (arith, count-append k m.active_queue (sid ∷ [])), ground (arith, z))
          | inr other ↦
              (ground (arith, count-append k m.active_queue (sid ∷ [])), ground (arith, b))
        ]

    one : has sid m.active_set ≡ false → count sid (m.active_queue ++ sid ∷ []) ≡ 1
    one e =
        let (a, b) = h sid in
        ground (arith, absent e, count-append sid m.active_queue (sid ∷ []), a)
