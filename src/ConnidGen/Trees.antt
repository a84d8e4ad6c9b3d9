-- ===== src/ConnidGen/Trees.antt =====
-- The trees of src/modules/connid_gen.c as lists in the order of their keys.
use openquic.Common.{
  ℕ, ◌+◌, ◌≤◌, ◌<◌, ◌≡◌, refl, arith, Bool, false, List, [], ◌∷◌, none, some, ◌==◌, if◌then◌else◌,
  ◌||◌,
}
use openquic.ConnidGen.{Gened, find, insert, remove}

-- Keys from `lo` on, ascending.
abbrev pub IsOrdered : ℕ → List Gened → Type 0
IsOrdered lo [] = Unit {0}
IsOrdered lo (g ∷ gs) = (lo ≤ g.key) × IsOrdered (g.key + 1) gs

pub IsOrdered-weaken :
    (lo lo' : ℕ) (gs : List Gened) → lo' ≤ lo → IsOrdered lo gs → IsOrdered lo' gs
IsOrdered-weaken lo lo' [] h o = tt
IsOrdered-weaken lo lo' (g ∷ gs) h o = (omega arith, o.1)

pub find_below : (lo j : ℕ) (gs : List Gened) → IsOrdered lo gs → j < lo → find j gs ≡ none
unfolding find
find_below lo j [] o h = refl
find_below lo j (g ∷ gs) o h = ground (arith, find_below (g.key + 1) j gs o.1)

pub find-insert :
    (j : ℕ) (g : Gened) (gs : List Gened)
    → find j (insert g gs) ≡ (if g.key == j then some g else find j gs)
unfolding find insert
find-insert j g [] = ground arith
find-insert j g (h ∷ hs) = ground (arith, find-insert j g hs)

pub insert-IsOrdered :
    (lo : ℕ) (g : Gened) (gs : List Gened)
    → IsOrdered lo gs
    → lo ≤ g.key
    → find g.key gs ≡ none
    → IsOrdered lo (insert g gs)
unfolding find insert
insert-IsOrdered lo g [] o h n = (h, tt)
insert-IsOrdered lo g (x ∷ xs) o h n = ground (arith, insert-IsOrdered (x.key + 1) g xs o.1)

pub find-remove :
    (lo j k : ℕ) (gs : List Gened)
    → IsOrdered lo gs
    → find j (remove k gs) ≡ (if k == j then none else find j gs)
unfolding find remove
find-remove lo j k [] o = ground arith
find-remove lo j k (g ∷ gs) o =
    ground (arith, find-remove (g.key + 1) j k gs o.1, find_below (g.key + 1) j gs o.1)

pub remove-IsOrdered : (lo k : ℕ) (gs : List Gened) → IsOrdered lo gs → IsOrdered lo (remove k gs)
unfolding remove
remove-IsOrdered lo k [] o = tt
remove-IsOrdered lo k (g ∷ gs) o =
    ground (arith, remove-IsOrdered (g.key + 1) k gs o.1, IsOrdered-weaken (g.key + 1) lo gs)

-- What is found has the key.
pub find_key : (k : ℕ) (gs : List Gened) (g : Gened) → find k gs ≡ some g → g.key ≡ k
unfolding find
find_key k [] g e = cc
find_key k (x ∷ xs) g e = ground (arith, find_key k xs g)

-- Whether a list of addresses has this one.
abbrev pub has : ℕ → List ℕ → Bool
has p [] = false
has p (q ∷ qs) = q == p || has p qs
