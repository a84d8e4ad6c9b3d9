-- ===== src/ConnidGen/Destination.antt =====
-- The identifiers that the peer issues: quic_session_handle_new_connection_id_frame and
-- quic_connid_gen_update_dst.
use openquic.Common.{
  ℕ, ◌+◌, ◌≤◌, ◌≡◌, ◌≢◌, refl, sym, ◌∙◌, inl, inr, ◌⊎◌, arith, Bool, true, false, List, [], ◌∷◌,
  ◌++◌, Option, none, some, leb, ◌==◌, if◌then◌else◌, Bool-cases, success,
}
use openquic.Frame.{Frame, NewConnectionId}
use openquic.ConnidGen.{
  Gened, ConnidGen, World, returned, called, free, ctrl, find, insert, remove, retire_frame,
  retire_upto, use_min, update_dst, finish_new, add_dst,
}
use openquic.ConnidGen.Pool.{
  IsLive, AllBelow, AllBelow-mono, IsLive-mono, IsLive-free, IsPool, IsInUse, IsPool-more,
  IsPool-insert, IsPool-remove,
}
use openquic.ConnidGen.Trees.{
  IsOrdered, IsOrdered-weaken, find_below, find-insert, find-remove, has,
}

-- The least identifier that is left.
use_min-IsInUse :
    (m : ConnidGen) (w : World) (g : Gened) (gs : List Gened)
    → m.dsts ≡ g ∷ gs
    → IsPool m.dsts w
    → IsInUse (use_min m w).0 (use_min m w).1
unfolding use_min find
use_min-IsInUse m w g gs e p =
    rw (e, use_min)
      (record {
        pool = record { ordered = p.ordered; live = p.live; freed_lt = p.freed_lt };
        active = rw e (ground arith);
      })

some-cons :
    (k : ℕ) (gs : List Gened) (g : Gened)
    → find k gs ≡ some g
    → (x : Gened) × (xs : List Gened) × (gs ≡ x ∷ xs)
unfolding find
some-cons k [] g f = cc
some-cons k (x ∷ xs) g f = (x, xs, refl)

-- The session's identifier is in use, or was retired.
abbrev pub InUseOrGone : ConnidGen → World → Type 0
InUseOrGone m w =
    (find m.dst_active m.dsts ≡ some (record { key = m.dst_active; connid = w.dst }))
    ⊎ (find m.dst_active m.dsts ≡ none)

-- quic_connid_gen_update_dst, where another identifier is there.
pub update_dst-IsInUse :
    (null k : ℕ) (g : Gened) (m : ConnidGen) (w : World)
    → IsPool m.dsts w
    → find k m.dsts ≡ some g
    → k ≢ m.dst_active
    → InUseOrGone m w
    → IsInUse (update_dst (λ i. true) null m w).0 (update_dst (λ i. true) null m w).1
unfolding update_dst
update_dst-IsInUse null k g m w p f n (inl here) =
    let left : find k (remove m.dst_active m.dsts) ≡ some g =
      find-remove 0 k m.dst_active m.dsts p.ordered ∙ ground arith in
    let (x, xs, e) = some-cons k (remove m.dst_active m.dsts) g left in
    rw (here, update_dst)
      (use_min-IsInUse _ _ x xs e (
        IsPool-remove m.dst_active (record { key = m.dst_active; connid = w.dst }) m.dsts w _ here
          refl (omega arith) p))
update_dst-IsInUse null k g m w p f n (inr gone) =
    let (x, xs, e) = some-cons k m.dsts g f in
    rw (gone, update_dst) (use_min-IsInUse _ _ x xs e (IsPool-more m.dsts w _ refl (omega arith) p))

-- The end of quic_session_handle_new_connection_id_frame.
finish_new-IsInUse :
    (null k retire : ℕ) (g : Gened) (m : ConnidGen) (w : World)
    → IsPool m.dsts w
    → find k m.dsts ≡ some g
    → k ≢ m.dst_active
    → InUseOrGone m w
    → (find m.dst_active m.dsts ≡ none → m.dst_active ≤ retire)
    → (m' : ConnidGen) × (w' : World) × (finish_new (λ i. true) null retire m w
        ≡ returned success m' w')
      × IsInUse m' w'
unfolding finish_new
finish_new-IsInUse null k retire g m w p f n u le = elim (Bool-cases (leb m.dst_active retire)) [
  | inl low ↦ (
    (update_dst (λ i. true) null m w).0,
    (update_dst (λ i. true) null m w).1,
    rw (low, finish_new),
    update_dst-IsInUse null k g m w p f n u,
  )
  | inr high ↦ (m, w, rw (high, finish_new), record { pool = p; active = still u high })
]
  where
    still :
        InUseOrGone m w
        → leb m.dst_active retire ≡ false
        → find m.dst_active m.dsts ≡ some (record { key = m.dst_active; connid = w.dst })
    still (inl here) h = here
    still (inr gone) h = absurd (ground (arith, le gone))

pub add_dst-IsInUse :
    (null : ℕ) (f : NewConnectionId) (m : ConnidGen) (w : World)
    → IsPool m.dsts w
    → f.seq ≢ m.dst_active
    → InUseOrGone m w
    → (find m.dst_active m.dsts ≡ none → m.dst_active ≤ f.retire)
    → (m' : ConnidGen) × (w' : World) × (add_dst (λ i. true) null f m w ≡ returned success m' w')
      × IsInUse m' w'
unfolding add_dst
add_dst-IsInUse null f m w p n u le = go (find f.seq m.dsts) refl
  where
    t : f.seq == m.dst_active ≡ false
    t = ground arith

    moved :
        (gs : List Gened)
        → find m.dst_active gs ≡ find m.dst_active m.dsts
        → InUseOrGone m w
        → (find m.dst_active gs ≡ some (record { key = m.dst_active; connid = w.dst }))
          ⊎ (find m.dst_active gs ≡ none)
    moved gs s (inl here) = inl (s ∙ here)
    moved gs s (inr gone) = inr (s ∙ gone)

    go :
        (o : Option Gened)
        → find f.seq m.dsts ≡ o
        → (m' : ConnidGen) × (w' : World) × (add_dst (λ i. true) null f m w
            ≡ returned success m' w')
          × IsInUse m' w'
    go (some g) e =
        let (m', w', d, v) = finish_new-IsInUse null f.seq f.retire g m w p e n u le in
        (m', w', rw (t, e, add_dst) d, v)
    go none e =
        let g : Gened = record {
          key = f.seq;
          connid = record { buf = w.mallocs + 1; bytes = f.conn };
        } in
        let m1 : ConnidGen = record m { dsts = insert g m.dsts } in
        let w1 : World = called (called w) in
        let same : find m.dst_active (insert g m.dsts) ≡ find m.dst_active m.dsts =
          find-insert m.dst_active g m.dsts ∙ ground arith in
        let (m', w', d, v) =
          finish_new-IsInUse null f.seq f.retire g m1 w1
            (IsPool-insert g m.dsts w w1 refl (omega arith) refl e p)
            (find-insert f.seq g m.dsts ∙ ground arith) n (moved (insert g m.dsts) same u)
            (λ gone. le (sym same ∙ gone)) in
        (m', w', rw (t, e, add_dst) d, v)

-- How many frames retire an identifier.
abbrev pub retiring : ℕ → Frame → ℕ
retiring k (Frame.retire_connection_id r) = if r.seq == k then 1 else 0
retiring k f = 0

abbrev pub retires : ℕ → List Frame → ℕ
retires k [] = 0
retires k (f ∷ fs) = retiring k f + retires k fs

pub retires-append :
    (k seq : ℕ) (fs : List Frame)
    → retires k (fs ++ retire_frame seq ∷ []) ≡ retires k fs + (if seq == k then 1 else 0)
retires-append k seq [] = omega arith
retires-append k seq (f ∷ fs) = omega (arith, retires-append k seq fs)

abbrev pub present : ℕ → List Gened → ℕ
present k gs = elim (find k gs) [ none ↦ 0 | some g ↦ 1 ]

-- What the loop over the identifiers up to `retire` leaves.
pub record Upto (lo retire : ℕ) (gs : List Gened) (w : World) (r : Bool × List Gened × World)
    : Type 0 where
  pub all : r.0 ≡ true
  pub ordered : IsOrdered lo r.1
  pub live : IsLive r.1 r.2.freed r.2.mallocs
  pub freed_lt : AllBelow r.2.freed r.2.mallocs
  pub found : (j : ℕ) → find j r.1 ≡ (if leb j retire then none else find j gs)
  pub dst : r.2.dst ≡ w.dst
  pub told :
      (k : ℕ) → retires k r.2.ctrls ≡ retires k w.ctrls + (if leb k retire then present k gs else 0)
  pub freed :
      (k : ℕ) (g : Gened) → find k gs ≡ some g → k ≤ retire → has g.connid.buf r.2.freed ≡ true
  pub freed_mono : (p : ℕ) → has p w.freed ≡ true → has p r.2.freed ≡ true

pub retire_upto-Upto :
    (lo retire : ℕ) (gs : List Gened) (w : World)
    → IsOrdered lo gs
    → IsLive gs w.freed w.mallocs
    → AllBelow w.freed w.mallocs
    → Upto lo retire gs w (retire_upto (λ i. true) retire gs w)
unfolding retire_upto find
retire_upto-Upto lo retire [] w o l a = record {
  all = refl;
  ordered = o;
  live = l;
  freed_lt = a;
  found = λ j. ground arith;
  dst = refl;
  told = λ k. ground arith;
  freed = λ k g e. cc;
  freed_mono = λ p h. h;
}
retire_upto-Upto lo retire (g ∷ gs) w o l a = elim (Bool-cases (leb g.key retire)) [
  | inl low ↦
      let w1 : World = free g.connid.buf (ctrl (retire_frame g.key) (called w)) in
      let u =
        retire_upto-Upto (g.key + 1) retire gs w1 o.1
          (IsLive-mono gs (g.connid.buf ∷ w.freed) w.mallocs (w.mallocs + 1) (omega arith)
            (IsLive-free g.connid.buf gs w.freed w.mallocs l.2 l.3))
          (omega (arith, l.0), AllBelow-mono w.freed w.mallocs (w.mallocs + 1) (omega arith) a) in
      rw (low, retire_upto)
        (record {
          all = u.all;
          ordered = IsOrdered-weaken (g.key + 1) lo _ (omega (arith, o.0)) u.ordered;
          live = u.live;
          freed_lt = u.freed_lt;
          found = λ j. u.found j ∙ ground arith;
          dst = u.dst;
          told = λ k.
              u.told k
              ∙ ground (arith, retires-append k g.key w.ctrls, find_below (g.key + 1) k gs o.1);
          freed = λ k h e le. elim (Bool-cases (g.key == k)) [
            | inl same ↦ ground (arith, u.freed_mono g.connid.buf)
            | inr other ↦ u.freed k h (ground arith) le
          ];
          freed_mono = λ p h. u.freed_mono p (ground arith);
        })
  | inr high ↦
      rw (high, retire_upto)
        (record {
          all = refl;
          ordered = o;
          live = l;
          freed_lt = a;
          found = λ j. ground (arith, find_below (g.key + 1) j gs o.1);
          dst = refl;
          told = λ k. ground (arith, find_below (g.key + 1) k gs o.1);
          freed = λ k h e le. absurd (ground (arith, find_below (g.key + 1) k gs o.1));
          freed_mono = λ p h. h;
        })
]
