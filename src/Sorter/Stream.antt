-- ===== src/Sorter/Stream.antt =====
-- The contract of src/sorter.c: what is read is the stream that was written, in order.
use openquic.Common.{
  ℕ, ◌+◌, ◌-◌, ◌^◌, ◌≤◌, ◌<◌, ◌≡◌, refl, ap, ◌∙◌, inl, inr, arith, Bool, true, false, not, ◌&&◌,
  List, [], ◌∷◌, some, length, take, drop, get_elem?, get_elem?-take, get_elem?-drop, length-take,
  length-drop, ltb, leb, if◌then◌else◌, Bool-cases, add64, sub64, Err, success,
}
use mathlib.Core.Option.{some-injective}
use mathlib.Core.Path.{subst}
use openquic.Sorter.{
  Sorter, Outcome, returned, init, store_from, write, read, peek, readable, clamped,
}
use openquic.Sorter.Rbt.{Tree}
use openquic.Sorter.Gaps.{Gap, max_size, Filled, covered, no_memory, updated, wild, write_gaps}
use openquic.Sorter.Clusters.{write_cluster}
use openquic.Sorter.Store.{within, content, write_cluster-content}
use openquic.Sorter.Window.{window, length-window, Stored, read_cluster-window}
use openquic.Sorter.Missing.{
  first_off, missing_below_first, first_off_mono, first_off-le, IsGaps, missing, MeetsPart, Exact,
}
use openquic.Sorter.Fill.{write_gaps-Exact}

module _ (T : Tree) (stream : ℕ → ℕ) where
  -- The sorter holds the bytes of the stream that were received and are not read yet.
  pub record Holds (s : Sorter T) : Type 0 where
    pub gaps : IsGaps 0 s.gaps
    pub avail : s.avail_size ≡ first_off s.gaps
    pub read_le : s.readed_size ≤ s.avail_size
    pub bytes :
        (i : ℕ)
        → s.readed_size ≤ i
        → i < max_size
        → missing i s.gaps ≡ false
        → content T s.clusters i ≡ some (stream i)

  -- `src` is the stream's bytes from `off` on.
  abbrev pub Carries : ℕ → List ℕ → Type 0
  Carries off src = (j : ℕ) → j < length src → get_elem? src j ≡ some (stream (off + j))

  -- What a write of `len` bytes at `off` leaves.
  pub record Wrote (off len : ℕ) (s : Sorter T) (r : Outcome T) : Type 0 where
    pub after : Sorter T
    pub success_lem : r ≡ returned success after
    pub holds : Holds after
    pub unread : after.readed_size ≡ s.readed_size
    pub taken :
        (i : ℕ) → missing i after.gaps ≡ (missing i s.gaps && not (leb off i && ltb i (off + len)))

  -- The part of `src` that quic_sorter_write stores, read at an offset in its range.
  selected :
      (off a b i : ℕ) (src : List ℕ)
      → Carries off src
      → off ≤ a
      → a ≤ i
      → i ≤ b
      → b < off + length src
      → get_elem? (take (b + 1 - a) (drop (a - off) src)) (i - a) ≡ some (stream i)
  selected off a b i src c h0 h1 h2 h3 =
      get_elem?-take (b + 1 - a) (i - a) (drop (a - off) src) (omega arith)
      ∙ get_elem?-drop (a - off) (i - off) (i - a) src (omega arith)
      ∙ rw (c (i - off) (omega arith)) (ap (λ k. some (stream k)) (omega arith))

  -- The new state after the gaps were updated.
  stored :
      (off a b : ℕ) (src : List ℕ) (gs : List Gap) (granted : ℕ → Bool) (s : Sorter T)
      → Holds s
      → Carries off src
      → ((k : ℕ) → granted k ≡ true)
      → off + length src < max_size
      → 0 < length src
      → Exact off (off + length src - 1) 0 s.gaps (updated gs a b)
      → Wrote off (length src) s (store_from T granted off src a b gs s)
  unfolding store_from
  stored off a b src [] granted s h c g m l (v, x, p, q, r, cover) = absurd (omega arith)
  stored off a b src (g0 ∷ gs) granted s h c g m l (v, x, p, q, r, cover) =
      let n : ℕ = sub64 (add64 b 1) a in
      let bytes : List ℕ = take n (drop (sub64 a off) src) in
      let en : n ≡ b + 1 - a = omega arith in
      let eo : sub64 a off ≡ a - off = omega arith in
      let size : length bytes ≡ b + 1 - a =
        rw (en, eo)
          (length-take (b + 1 - a) (drop (a - off) src)
            (omega (arith, length-drop (a - off) src (omega arith)))) in
      let (done, all) =
        write_cluster-content T (length bytes) granted a bytes s.clusters (omega arith) g in
      let m' = (write_cluster T (length bytes) granted a bytes s.clusters).1 in
      let mono : first_off s.gaps ≤ g0.off =
        first_off_mono s.gaps (g0 ∷ gs) h.gaps v (λ i e. ground (arith, x i)) in
      let e' : Err = (write_cluster T (length bytes) granted a bytes s.clusters).0 in
      record {
        after = record s { gaps = g0 ∷ gs; clusters = m'; avail_size = g0.off };
        success_lem = rw done;
        holds = record {
          gaps = v;
          avail = refl;
          read_le = omega (arith, h.avail, h.read_le);
          bytes = λ i k t z. all i ∙ byte_at i k t z (en) eo size;
        };
        unread = refl;
        taken = λ i. x i ∙ ground arith;
      }
    where
      byte_at :
          (i : ℕ)
          → s.readed_size ≤ i
          → i < max_size
          → missing i (g0 ∷ gs) ≡ false
          → sub64 (add64 b 1) a ≡ b + 1 - a
          → sub64 a off ≡ a - off
          → length (take (sub64 (add64 b 1) a) (drop (sub64 a off) src)) ≡ b + 1 - a
          → (if within a (length (take (sub64 (add64 b 1) a) (drop (sub64 a off) src))) i
              then get_elem? (take (sub64 (add64 b 1) a) (drop (sub64 a off) src)) (i - a)
              else content T s.clusters i)
            ≡ some (stream i)
      byte_at i k t z en eo size = elim (Bool-cases (within a (b + 1 - a) i)) [
        | inl inside ↦
            rw (size, inside, en, eo)
              (selected off a b i src c p (ground arith) (ground arith) (omega arith))
        | inr outside ↦
            rw (size, outside)
              (h.bytes i k t (elim (Bool-cases (missing i s.gaps)) [
                | inl was ↦ absurd (ground (arith, x i, cover i))
                | inr was ↦ was
              ]))
      ]

  by_gaps :
      (off : ℕ) (x : ℕ) (xs : List ℕ) (granted : ℕ → Bool) (s : Sorter T) (f : Filled)
      → Holds s
      → Carries off (x ∷ xs)
      → ((k : ℕ) → granted k ≡ true)
      → off + length (x ∷ xs) < max_size
      → write_gaps true off (sub64 (add64 off (length (x ∷ xs))) 1) s.gaps ≡ f
      → Exact off (off + length (x ∷ xs) - 1) 0 s.gaps f
      → Wrote off (length (x ∷ xs)) s (write T true granted off (x ∷ xs) s)
  unfolding write
  by_gaps off x xs granted s covered h c g m e d = record {
    after = s;
    success_lem = rw (e, write);
    holds = h;
    unread = refl;
    taken = λ i. ground (arith, d i);
  }
  by_gaps off x xs granted s no_memory h c g m e d = absurd d
  by_gaps off x xs granted s wild h c g m e d = absurd d
  by_gaps off x xs granted s (updated gs a b) h c g m e d =
      let w = stored off a b (x ∷ xs) gs granted s h c g m (omega arith) d in
      record {
        after = w.after;
        success_lem = rw (e, write) (w.success_lem);
        holds = w.holds;
        unread = w.unread;
        taken = w.taken;
      }

  -- From a sorter that holds the stream, where memory is granted, a write of the stream's bytes
  -- that ends below the greatest size, meets one gap at most and does not fill it succeeds; the
  -- sorter goes on to hold the stream, what was read stays so, and just the written offsets are
  -- no longer missing.
  pub write-Holds :
      (off : ℕ) (src : List ℕ) (granted : ℕ → Bool) (s : Sorter T)
      → Holds s
      → Carries off src
      → ((k : ℕ) → granted k ≡ true)
      → off + length src < max_size
      → MeetsPart off (off + length src - 1) s.gaps
      → Wrote off (length src) s (write T true granted off src s)
  unfolding write
  write-Holds off [] granted s h c g m o = record {
    after = s;
    success_lem = refl;
    holds = h;
    unread = refl;
    taken = λ i. ground arith;
  }
  write-Holds off (x ∷ xs) granted s h c g m o =
      let e : sub64 (add64 off (length (x ∷ xs))) 1 ≡ off + length (x ∷ xs) - 1 = omega arith in
      by_gaps off x xs granted s _ h c g m refl (
        rw e (
          write_gaps-Exact 0 off (off + length (x ∷ xs) - 1) s.gaps h.gaps o (omega arith)
            (omega arith) (omega arith)))

  pub readable_lem : (s : Sorter T) → Holds s → readable T s ≡ s.avail_size - s.readed_size
  readable_lem s h = omega (arith, h.avail, h.read_le, first_off-le s.gaps h.gaps)

  ready :
      (len : ℕ) (s : Sorter T)
      → Holds s
      → s.readed_size + len ≤ s.avail_size
      → Stored T stream s.readed_size len s.clusters
  ready len s h k i p q =
      h.bytes i p (omega (arith, h.avail, first_off-le s.gaps h.gaps))
        (missing_below_first i s.gaps h.gaps (omega (arith, h.avail)))

  -- Reading from a sorter that holds a stream returns the stream's bytes from the read offset on,
  -- as many as were asked for and are there, and the sorter goes on to hold the rest; peeking
  -- returns the same bytes.
  pub read-Holds :
      (len : ℕ) (s : Sorter T)
      → Holds s
      → let n =
          (if ltb (s.avail_size - s.readed_size) len then s.avail_size - s.readed_size else len) in
        ((read T len s).0 ≡ window stream s.readed_size n)
        × (peek T len s ≡ window stream s.readed_size n)
        × ((read T len s).1.readed_size ≡ s.readed_size + n)
        × Holds (read T len s).1
  unfolding read peek
  read-Holds len s h =
      let n : ℕ =
        if ltb (s.avail_size - s.readed_size) len then s.avail_size - s.readed_size else len in
      let k : clamped T s len ≡ n = ground (arith, readable_lem s h) in
      let fits : s.readed_size + n ≤ s.avail_size = ground (arith, h.read_le) in
      let (out, rest) =
        read_cluster-window T stream n true s.readed_size n s.clusters (omega arith)
          (ready n s h fits) in
      let (seen, rest') =
        read_cluster-window T stream n false s.readed_size n s.clusters (omega arith)
          (ready n s h fits) in
      let small : s.readed_size + n < 2 ^ 64 = omega (arith, h.avail, first_off-le s.gaps h.gaps) in
      let moved : add64 s.readed_size (length (window stream s.readed_size n)) ≡ s.readed_size + n =
        omega (arith, length-window stream s.readed_size n) in
      (
        rw k out,
        rw (k, peek) seen,
        rw (k, out) moved,
        rw (k, out)
            (record {
              gaps = h.gaps;
              avail = h.avail;
              read_le = omega arith;
              bytes = λ i p t z. rest i (omega arith) ∙ h.bytes i (omega arith) t z;
            }),
      )

  -- A fresh sorter, which has received nothing, holds the stream, whatever that is.
  pub init-Holds : (s : Sorter T) → init T true ≡ some s → Holds s
  unfolding init
  init-Holds s e = subst Holds (some-injective _ _ e) (record {
    gaps = omega arith;
    avail = refl;
    read_le = omega arith;
    bytes = λ i p t z. absurd (ground arith);
  })
