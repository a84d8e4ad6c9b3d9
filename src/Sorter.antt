-- ===== src/Sorter.antt =====
-- src/sorter.c and src/sorter.h: the bytes of a stream, put in order.
-- The list of gaps is a list. The red-black tree of clusters is liteco's: a parameter with the
-- laws of a finite map. A cluster's memory is a function, `none` where nothing was stored.
pub mod Rbt
pub mod Gaps
pub mod Clusters
pub mod Store
pub mod Window
pub mod Missing
pub mod Fill
pub mod Defect
pub mod Stream
pub mod Samples
mod Tests
use openquic.Common.{
  ℕ, zero, suc, ◌+◌, ◌-◌, ◌/◌, ◌%◌, Bool, true, false, List, [], ◌∷◌, Option, none, some, length,
  take, drop, ltb, leb, ◌==◌, if◌then◌else◌, sub64, add64, Err, success, internal_error,
}
use openquic.Sorter.Rbt.{Tree, Block}
use openquic.Sorter.Gaps.{Gap, max_size, Filled, covered, no_memory, updated, wild, write_gaps}
use openquic.Sorter.Clusters.{write_cluster, read_cluster}

module _ (T : Tree) where
  open T use {Map, empty}

  -- quic_sorter_t
  pub record Sorter : Type 0 where
    pub gaps : List Gap
    pub clusters : Map
    pub avail_size : ℕ
    pub readed_size : ℕ

  -- What a call does: it returns a code with the new state, or it reads the list's head as
  -- a gap, or a gap that was freed.
  pub data Outcome : Type 0 where
    returned : Err → Sorter → Outcome
    undefined : Outcome

  -- quic_sorter_init; `granted` tells whether malloc gives memory for the first gap.
  unfoldable pub init : Bool → Option Sorter
  init granted =
      if granted
      then some (record {
        gaps = record { off = 0; len = max_size } ∷ [];
        clusters = empty;
        avail_size = 0;
        readed_size = 0;
      })
      else none

  -- The gaps and the clusters of quic_sorter_destory, which are all freed.
  unfoldable pub destory : Sorter → Sorter
  destory s = record s { gaps = []; clusters = empty }

  -- quic_sorter_readable
  abbrev pub readable : Sorter → ℕ
  readable s = sub64 s.avail_size s.readed_size

  -- Lines 122 to 124 of quic_sorter_write.
  unfoldable pub store_from : (ℕ → Bool) → ℕ → List ℕ → ℕ → ℕ → List Gap → Sorter → Outcome
  store_from granted off src start end [] s = undefined
  store_from granted off src start end (g ∷ gs) s =
      let bytes = take (sub64 (add64 end 1) start) (drop (sub64 start off) src) in
      let (e, m) = write_cluster T (length bytes) granted start bytes s.clusters in
      returned e (record s { gaps = g ∷ gs; clusters = m; avail_size = g.off })

  -- quic_sorter_write of the bytes `src` at `off`. `for_gap` and `granted` are malloc's answers, for
  -- a new gap and for the cluster of each key.
  unfoldable pub write : Bool → (ℕ → Bool) → ℕ → List ℕ → Sorter → Outcome
  unfolding store_from
  write for_gap granted off [] s = returned success s
  write for_gap granted off (x ∷ xs) s =
      elim (write_gaps for_gap off (sub64 (add64 off (length (x ∷ xs))) 1) s.gaps) [
        | covered ↦ returned success s
        | no_memory ↦ returned internal_error s
        | updated gs start end ↦ store_from granted off (x ∷ xs) start end gs s
        | wild ↦ undefined
      ]

  -- quic_sorter_append
  unfoldable pub append : Bool → (ℕ → Bool) → List ℕ → Sorter → Outcome
  append for_gap granted src s = write for_gap granted s.avail_size src s

  -- The `len` that quic_sorter_read and quic_sorter_peek go on with.
  abbrev pub clamped : Sorter → ℕ → ℕ
  clamped s len = if ltb (readable s) len then readable s else len

  -- quic_sorter_read
  unfoldable pub read : ℕ → Sorter → List (Option ℕ) × Sorter
  read len s =
      let (out, m) = read_cluster T (clamped s len) true s.readed_size (clamped s len) s.clusters in
      (out, record s { clusters = m; readed_size = add64 s.readed_size (length out) })

  -- quic_sorter_peek
  unfoldable pub peek : ℕ → Sorter → List (Option ℕ)
  peek len s = (read_cluster T (clamped s len) false s.readed_size (clamped s len) s.clusters).0

  -- quic_sorter_empty
  unfoldable pub is_empty : Sorter → Bool
  is_empty s = readable s == 0
