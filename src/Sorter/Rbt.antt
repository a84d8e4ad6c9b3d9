-- ===== src/Sorter/Rbt.antt =====
-- What sorter.c uses of liteco's red-black tree: a finite map from cluster keys to memory.
use openquic.Common.{ℕ, Option, none, some, ◌≡◌, ◌==◌, if◌then◌else◌}

-- The 4096 bytes of a cluster. `none` is memory that nothing was stored to.
abbrev pub Block : Type 0
Block = ℕ → Option ℕ

-- liteco_rbt_find, liteco_rbt_insert (of a key that is not there) and liteco_rbt_remove.
pub record Tree : Type 1 where
  pub Map : Type 0
  pub empty : Map
  pub find : ℕ → Map → Option Block
  pub insert : ℕ → Block → Map → Map
  pub remove : ℕ → Map → Map
  pub find-empty : (k : ℕ) → find k empty ≡ none
  pub find-insert :
      (k j : ℕ) (v : Block) (m : Map)
      → find j (insert k v m) ≡ (if k == j then some v else find j m)
  pub find-remove : (k j : ℕ) (m : Map) → find j (remove k m) ≡ (if k == j then none else find j m)
