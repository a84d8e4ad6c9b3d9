-- ===== src/Sorter/Window.antt =====
-- Reading from the clusters of src/sorter.c what a stream stored there.
use openquic.Common.{
  ℕ, zero, suc, ◌+◌, ◌-◌, ◌/◌, ◌%◌, ◌≤◌, ◌<◌, ◌≡◌, ◌≢◌, refl, sym, ap, ◌∙◌, inl, inr, arith, Bool,
  true, false, ◌&&◌, not, List, [], ◌∷◌, ◌++◌, Option, none, some, length, ◌==◌, if◌then◌else◌,
  Bool-cases,
}
use openquic.Sorter.Rbt.{Tree, Block}
use openquic.Sorter.Clusters.{cluster_size, cluster_len, load, read_cluster}
use openquic.Sorter.Store.{content, cluster_len_bounds}

-- The bytes of a stream from an offset on.
unfoldable pub window : (ℕ → ℕ) → ℕ → ℕ → List (Option ℕ)
window stream off zero = []
window stream off (suc n) = some (stream off) ∷ window stream (off + 1) n

pub length-window : (stream : ℕ → ℕ) (off n : ℕ) → length (window stream off n) ≡ n
unfolding window
length-window stream off zero = refl
length-window stream off (suc n) = ap suc (length-window stream (off + 1) n)

window-append :
    (stream : ℕ → ℕ) (off n m : ℕ)
    → window stream off n ++ window stream (off + n) m ≡ window stream off (n + m)
unfolding window
window-append stream off zero m =
    let e : off + 0 ≡ off = omega arith in let f : 0 + m ≡ m = omega arith in rw (e, f)
window-append stream off (suc n) m =
    let e : off + suc n ≡ off + 1 + n = omega arith in
    let f : suc n + m ≡ suc (n + m) = omega arith in
    rw (e, f) (ap (λ l. some (stream off) ∷ l) (window-append stream (off + 1) n m))

load-window :
    (stream : ℕ → ℕ) (b : Block) (at off n : ℕ)
    → ((j : ℕ) → j < n → b (at + j) ≡ some (stream (off + j)))
    → load b at n ≡ window stream off n
unfolding load window
load-window stream b at off zero h = refl
load-window stream b at off (suc n) h =
    let e : at + 0 ≡ at = omega arith in
    let f : off + 0 ≡ off = omega arith in
    let first : b at ≡ some (stream off) = rw (e, f) at (h 0 (omega arith)) in
    let next : load b (at + 1) n ≡ window stream (off + 1) n =
      load-window stream b (at + 1) (off + 1) n (λ j lt. shifted j (h (suc j) (omega arith))) in
    rw (first, next)
  where
    shifted :
        (j : ℕ)
        → b (at + suc j) ≡ some (stream (off + suc j))
        → b (at + 1 + j) ≡ some (stream (off + 1 + j))
    shifted j k =
        let e : at + suc j ≡ at + 1 + j = omega arith in
        let f : off + suc j ≡ off + 1 + j = omega arith in rw (e, f) at k

module _ (T : Tree) where
  open T use {Map, find, remove, find-remove}

  -- The `n` bytes of the stream from `off` on are stored.
  abbrev pub Stored : (ℕ → ℕ) → ℕ → ℕ → Map → Type 0
  Stored stream off n m = (i : ℕ) → off ≤ i → i < off + n → content T m i ≡ some (stream i)

  cluster_of :
      (m : Map) (i v : ℕ)
      → content T m i ≡ some v
      → (b : Block) × (find (i / cluster_size) m ≡ some b)
  unfolding content
  cluster_of m i v h = go (find (i / cluster_size) m) refl
    where
      go :
          (o : Option Block)
          → find (i / cluster_size) m ≡ o
          → (b : Block) × (find (i / cluster_size) m ≡ some b)
      go (some b) e = (b, e)
      go none e = absurd (ground arith)

  content_in :
      (m : Map) (i key : ℕ) (b : Block)
      → find key m ≡ some b
      → i / cluster_size ≡ key
      → content T m i ≡ b (i % cluster_size)
  unfolding content
  content_in m i key b e h = rw (h, e)

  content-remove :
      (m : Map) (i key : ℕ) → key ≢ i / cluster_size → content T (remove key m) i ≡ content T m i
  unfolding content
  content-remove m i key h =
      let other : (key == i / cluster_size) ≡ false = ground arith in rw (find-remove, other)

  -- What the loop keeps of the clusters: all from the end of the read bytes on.
  kept :
      (consume : Bool) (off n : ℕ) (m : Map) (i : ℕ)
      → off + n ≤ i
      → content T
          (if consume && not (off / cluster_size == (off + n) / cluster_size)
            then remove (off / cluster_size) m
            else m)
          i
        ≡ content T m i
  kept false off n m i h = refl
  kept true off n m i h = elim (Bool-cases (off / cluster_size == (off + n) / cluster_size)) [
    | inl same ↦ rw same refl
    | inr other ↦ rw other (content-remove m i (off / cluster_size) (λ e. absurd (ground arith)))
  ]

  -- Where the bytes of the stream are stored, and with as much fuel as bytes,
  -- quic_sorter_read_cluster returns all, in order, and keeps whatever is stored behind them.
  pub read_cluster-window :
      (stream : ℕ → ℕ) (fuel : ℕ) (consume : Bool) (off len : ℕ) (m : Map)
      → len ≤ fuel
      → Stored stream off len m
      → ((read_cluster T fuel consume off len m).0 ≡ window stream off len)
        × ((i : ℕ)
            → off + len ≤ i
            → content T (read_cluster T fuel consume off len m).1 i ≡ content T m i)
  unfolding read_cluster window
  read_cluster-window stream zero consume off zero m h st = (refl, λ i k. refl)
  read_cluster-window stream zero consume off (suc len) m h st = absurd (omega arith)
  read_cluster-window stream (suc fuel) consume off zero m h st = (refl, λ i k. refl)
  read_cluster-window stream (suc fuel) consume off (suc len) m h st =
      let n : ℕ = cluster_len off (suc len) in
      let (lo, hi, fits) = cluster_len_bounds T off (suc len) (omega arith) in
      let key : ℕ = off / cluster_size in
      let (b, e) = cluster_of m off (stream off) (st off (omega arith) (omega arith)) in
      let m' : Map = if consume && not (key == (off + n) / cluster_size) then remove key m else m in
      let left : Stored stream (off + n) (suc len - n) m' =
        λ i p q. kept consume off n m i p ∙ st i (omega arith) (omega arith) in
      let (out, rest) =
        read_cluster-window stream fuel consume (off + n) (suc len - n) m' (omega arith) left in
      let here : load b (off % cluster_size) n ≡ window stream off n =
        load-window stream b (off % cluster_size) off n
          λ j q. byte_at n b j fits q e (st (off + j) (omega arith) (omega arith)) in
      let total : n + (suc len - n) ≡ suc len = omega arith in
      (
        rw (e, read_cluster)
            (rw (out, here)
              (window-append stream off n (suc len - n) ∙ ap (window stream off) total)),
        λ i k. rw (e, read_cluster) (rest i (omega arith) ∙ kept consume off n m i (omega arith)),
      )
    where
      byte_at :
          (n : ℕ) (b : Block) (j : ℕ)
          → n ≤ cluster_size - off % cluster_size
          → j < n
          → find (off / cluster_size) m ≡ some b
          → content T m (off + j) ≡ some (stream (off + j))
          → b (off % cluster_size + j) ≡ some (stream (off + j))
      byte_at n b j fits q e st =
          let same : (off + j) / cluster_size ≡ off / cluster_size = omega arith in
          let low : (off + j) % cluster_size ≡ off % cluster_size + j = omega arith in
          rw (← low) (sym (content_in m (off + j) (off / cluster_size) b e same) ∙ st)
