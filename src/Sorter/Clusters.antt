-- ===== src/Sorter/Clusters.antt =====
-- quic_sorter_write_cluster and quic_sorter_read_cluster of src/sorter.c.
use openquic.Common.{
  ℕ, zero, suc, ◌+◌, ◌-◌, ◌/◌, ◌%◌, Bool, ◌&&◌, not, List, [], ◌∷◌, ◌++◌, Option, none, some,
  length, get_elem?, take, drop, ltb, leb, ◌==◌, if◌then◌else◌, Err, success, internal_error,
}
use openquic.Sorter.Rbt.{Tree, Block}

-- QUIC_SORTER_CLUSTER_SIZE
abbrev pub cluster_size : ℕ
cluster_size = 4096

abbrev pub cluster_len : ℕ → ℕ → ℕ
cluster_len off len =
    if ltb len (cluster_size - off % cluster_size) then len else cluster_size - off % cluster_size

-- memcpy(cluster->data + at, src, length src)
unfoldable pub store : Block → ℕ → List ℕ → Block
store b at src i = if leb at i && ltb i (at + length src) then get_elem? src (i - at) else b i

-- memcpy out of a cluster: `n` bytes from `at` on.
unfoldable pub load : Block → ℕ → ℕ → List (Option ℕ)
load b at zero = []
load b at (suc n) = b at ∷ load b (at + 1) n

-- What malloc gives.
abbrev pub raw : Block
raw i = none

module _ (T : Tree) where
  open T use {Map, empty, find, insert, remove}

  -- The cluster of a key, made if it is missing and memory is granted.
  unfoldable pub obtain : Bool → ℕ → Map → Option Block
  obtain granted key m = elim (find key m) [
    | some b ↦ some b
    | none ↦ if granted then some raw else none
  ]

  -- The loop of quic_sorter_write_cluster; `src` is what is still to be stored. The fuel is the
  -- number of bytes: each round stores one at least. A cluster is updated in place, which is an
  -- insertion of the new contents under its key.
  unfoldable pub write_cluster : ℕ → (ℕ → Bool) → ℕ → List ℕ → Map → Err × Map
  unfolding store obtain
  write_cluster zero granted off src m = (success, m)
  write_cluster (suc fuel) granted off [] m = (success, m)
  write_cluster (suc fuel) granted off (x ∷ xs) m =
      let n = cluster_len off (length (x ∷ xs)) in
      let key = off / cluster_size in
      elim (obtain (granted key) key m) [
        | some b ↦
            write_cluster fuel granted (off + n) (drop n (x ∷ xs))
              (insert key (store b (off % cluster_size) (take n (x ∷ xs))) m)
        | none ↦ (internal_error, m)
      ]

  -- The loop of quic_sorter_read_cluster, for `len` more bytes.
  unfoldable pub read_cluster : ℕ → Bool → ℕ → ℕ → Map → List (Option ℕ) × Map
  unfolding load
  read_cluster zero consume off len m = ([], m)
  read_cluster (suc fuel) consume off zero m = ([], m)
  read_cluster (suc fuel) consume off (suc l) m =
      let n = cluster_len off (suc l) in
      let key = off / cluster_size in
      elim (find key m) [
        | none ↦ ([], m)
        | some b ↦
            let m' =
              (if consume && not (key == (off + n) / cluster_size) then remove key m else m) in
            let (out, m'') = read_cluster fuel consume (off + n) (suc l - n) m' in
            (load b (off % cluster_size) n ++ out, m'')
      ]
