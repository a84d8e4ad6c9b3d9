-- ===== src/Sorter/Samples.antt =====
-- Sorters for the tests, with an association list for the tree of clusters.
use openquic.Common.{
  ℕ, zero, suc, ◌<◌, List, [], ◌∷◌, ◌≡◌, refl, inl, inr, arith, Option, none, some, if◌then◌else◌,
  ◌==◌, Bool-cases,
}
use openquic.Sorter.Rbt.{Tree, Block}
use openquic.Sorter.Gaps.{max_size}
use openquic.Sorter.{Sorter}
use openquic.Sorter.Store.{content}
use openquic.Sorter.Stream.{Holds, Carries}

abbrev pub Table : Type 0
Table = List (ℕ × Block)

abbrev pub find : ℕ → Table → Option Block
find k [] = none
find k ((j, b) ∷ m) = if j == k then some b else find k m

abbrev pub remove : ℕ → Table → Table
remove k [] = []
remove k ((j, b) ∷ m) = let rest = remove k m in if k == j then rest else (j, b) ∷ rest

pub find-remove : (k j : ℕ) (m : Table) → find j (remove k m) ≡ (if k == j then none else find j m)
find-remove k j [] = ground arith
find-remove k j ((i, b) ∷ m) = elim (Bool-cases (k == i)) [
  | inl same ↦ rw (same, find-remove k j m) (ground arith)
  | inr other ↦ rw (other, find-remove k j m) (ground arith)
]

abbrev pub table : Tree
table = record {
  Map = Table;
  empty = [];
  find = find;
  insert = λ k b m. (k, b) ∷ m;
  remove = remove;
  find-empty = λ k. refl;
  find-insert = λ k j v m. refl;
  find-remove = find-remove;
}

-- Each byte of the stream is its offset.
abbrev pub count_up : ℕ → ℕ
count_up i = i

abbrev pub fresh : Sorter table
fresh = record {
  gaps = record { off = 0; len = max_size } ∷ [];
  clusters = [];
  avail_size = 0;
  readed_size = 0;
}

abbrev pub bytes : List ℕ
bytes = 2 ∷ 3 ∷ []

pub bytes_carry : Carries table count_up 2 bytes
bytes_carry zero h = refl
bytes_carry (suc zero) h = refl
bytes_carry (suc (suc j)) h = absurd (omega arith)

-- What was received at 0 and 1 is stored, the rest is missing.
abbrev pub ready : Sorter table
ready = record {
  gaps = record { off = 2; len = 9223372036854775805 } ∷ [];
  clusters = (0, λ i. some i) ∷ [];
  avail_size = 2;
  readed_size = 0;
}

pub two_stored : (i : ℕ) → i < 2 → content table ready.clusters i ≡ some i
unfolding content
two_stored zero h = refl
two_stored (suc zero) h = refl
two_stored (suc (suc i)) h = absurd (omega arith)

pub ready-Holds : Holds table count_up ready
ready-Holds = record {
  gaps = (omega arith, omega arith, omega arith);
  avail = refl;
  read_le = omega arith;
  bytes = λ i p q h. two_stored i (ground arith);
}
