-- ===== src/Sorter/Store.antt =====
-- Writing and reading in clusters, against the bytes of the stream by their offsets.
use openquic.Common.{
  ℕ, zero, suc, ◌+◌, ◌-◌, ◌/◌, ◌%◌, ◌≤◌, ◌<◌, ◌≡◌, refl, ◌∙◌, inl, inr, arith, Bool, true, ◌&&◌,
  List, [], ◌∷◌, Option, none, some, length, get_elem?, take, drop, length-take, length-drop,
  get_elem?-take, get_elem?-drop, ltb, leb, ◌==◌, if◌then◌else◌, Bool-cases, success,
}
use openquic.Sorter.Rbt.{Tree, Block}
use openquic.Sorter.Clusters.{cluster_size, cluster_len, store, raw, obtain, write_cluster}

-- Whether an offset lies among the `n` from `off` on.
abbrev pub within : ℕ → ℕ → ℕ → Bool
within off n i = leb off i && ltb i (off + n)

module _ (T : Tree) where
  open T use {Map, empty, find, insert, remove, find-insert, find-remove}

  abbrev in_block : Option Block → ℕ → Option ℕ
  in_block none i = none
  in_block (some b) i = b i

  -- The byte at an offset of the stream.
  unfoldable pub content : Map → ℕ → Option ℕ
  content m i = in_block (find (i / cluster_size) m) (i % cluster_size)

  obtained :
      (granted : Bool) (key : ℕ) (m : Map)
      → granted ≡ true
      → (b : Block) × (obtain T granted key m ≡ some b)
        × ((i : ℕ) → i / cluster_size ≡ key → b (i % cluster_size) ≡ content m i)
  unfolding obtain content
  obtained granted key m g = go (find key m) refl
    where
      go :
          (o : Option Block)
          → find key m ≡ o
          → (b : Block) × (obtain T granted key m ≡ some b)
            × ((i : ℕ) → i / cluster_size ≡ key → b (i % cluster_size) ≡ content m i)
      go (some b) e = (b, ground arith, λ i h. rw (h, e))
      go none e = (raw, ground arith, λ i h. rw (h, e))

  -- One round: the bytes that go into the cluster of `off`.
  round_content :
      (off n : ℕ) (src : List ℕ) (b : Block) (m : Map) (i : ℕ)
      → n ≤ length src
      → n ≤ cluster_size - off % cluster_size
      → ((i : ℕ) → i / cluster_size ≡ off / cluster_size → b (i % cluster_size) ≡ content m i)
      → content (insert (off / cluster_size) (store b (off % cluster_size) (take n src)) m) i
        ≡ (if within off n i then get_elem? src (i - off) else content m i)
  unfolding content store
  round_content off n src b m i h fits old =
      elim (Bool-cases (off / cluster_size == i / cluster_size)) [
        | inl same ↦
            let e : i / cluster_size ≡ off / cluster_size = ground arith in
            let j : i % cluster_size - off % cluster_size ≡ i - off = omega arith in
            rw (find-insert, same)
              (ground (
                arith,
                length-take n src h,
                old i e,
                get_elem?-take n (i % cluster_size - off % cluster_size) src,
              ))
        | inr other ↦ rw (find-insert, other) (ground arith)
      ]

  pub cluster_len_bounds :
      (off len : ℕ)
      → 0 < len
      → (1 ≤ cluster_len off len)
        × (cluster_len off len ≤ len)
        × (cluster_len off len ≤ cluster_size - off % cluster_size)
  cluster_len_bounds off len h = ground arith

  -- Two adjacent windows of a list of bytes make up one.
  windows_join :
      (off n : ℕ) (src : List ℕ) (old : Option ℕ) (i : ℕ)
      → n ≤ length src
      → (if within (off + n) (length (drop n src)) i
          then get_elem? (drop n src) (i - (off + n))
          else if within off n i
          then get_elem? src (i - off)
          else old)
        ≡ (if within off (length src) i then get_elem? src (i - off) else old)
  windows_join off n src old i h =
      ground (arith, length-drop n src h, get_elem?-drop n (i - off) (i - (off + n)) src)

  -- Where memory is granted and the fuel is the number of bytes at least,
  -- quic_sorter_write_cluster succeeds, stores each byte at its offset and changes no other.
  pub write_cluster-content :
      (fuel : ℕ) (granted : ℕ → Bool) (off : ℕ) (src : List ℕ) (m : Map)
      → length src ≤ fuel
      → ((k : ℕ) → granted k ≡ true)
      → ((write_cluster T fuel granted off src m).0 ≡ success)
        × ((i : ℕ)
            → content (write_cluster T fuel granted off src m).1 i
              ≡ (if within off (length src) i then get_elem? src (i - off) else content m i))
  unfolding write_cluster
  write_cluster-content zero granted off [] m h g = (refl, λ i. ground arith)
  write_cluster-content zero granted off (x ∷ xs) m h g = absurd (omega arith)
  write_cluster-content (suc fuel) granted off [] m h g = (refl, λ i. ground arith)
  write_cluster-content (suc fuel) granted off (x ∷ xs) m h g =
      let src : List ℕ = x ∷ xs in
      let n : ℕ = cluster_len off (length src) in
      let key : ℕ = off / cluster_size in
      let (lo, hi, fits) = cluster_len_bounds off (length src) (omega arith) in
      let (b, e, old) = obtained (granted key) key m (g key) in
      let m' : Map = insert key (store b (off % cluster_size) (take n src)) m in
      let left : length (drop n src) ≤ fuel = omega (arith, length-drop n src hi) in
      let (done, rest) = write_cluster-content fuel granted (off + n) (drop n src) m' left g in
      (
        rw (e, write_cluster) done,
        λ i.
            rw (e, write_cluster)
              (rest i
                ∙ rw (round_content off n src b m i hi fits old)
                    (windows_join off n src (content m i) i hi)),
      )
