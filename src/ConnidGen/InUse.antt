-- ===== src/ConnidGen/InUse.antt =====
-- What a NEW_CONNECTION_ID frame does to the identifier that the session sends to.
use openquic.Common.{
  ℕ, ◌+◌, ◌≤◌, ◌<◌, ◌≡◌, ◌≢◌, refl, ap, ◌∙◌, ◌⊎◌, inl, inr, arith, true, false, List, [], ◌∷◌, ◌++◌,
  Option, none, some, ltb, leb, ◌==◌, if◌then◌else◌, Bool-cases, success,
}
use openquic.Frame.{NewConnectionId}
use openquic.ConnidGen.{
  Gened, ConnidGen, World, returned, called, ctrl, find, insert, retire_frame, retire_upto, use_min,
  update_dst, finish_new, add_dst, handle_new_connection_id,
}
use openquic.ConnidGen.Trees.{has}
use openquic.ConnidGen.Pool.{IsInUse, IsPool-more}
use openquic.ConnidGen.Destination.{
  add_dst-IsInUse, retires, retires-append, Upto, retire_upto-Upto,
}

-- The frames that quic_connid_gen_update_dst and its callers queue.
use_min_told : (m : ConnidGen) (w : World) → (use_min m w).1.ctrls ≡ w.ctrls
unfolding use_min
use_min_told m w = go m.dsts refl
  where
    go : (gs : List Gened) → m.dsts ≡ gs → (use_min m w).1.ctrls ≡ w.ctrls
    go [] e = rw (e, use_min)
    go (x ∷ xs) e = rw (e, use_min)

update_dst_told :
    (null : ℕ) (m : ConnidGen) (w : World)
    → (update_dst (λ i. true) null m w).1.ctrls ≡ w.ctrls ++ retire_frame m.dst_active ∷ []
unfolding update_dst
update_dst_told null m w = go (find m.dst_active m.dsts) refl
  where
    go :
        (o : Option Gened)
        → find m.dst_active m.dsts ≡ o
        → (update_dst (λ i. true) null m w).1.ctrls ≡ w.ctrls ++ retire_frame m.dst_active ∷ []
    go none e = rw (e, update_dst) (use_min_told _ _)
    go (some g) e = rw (e, update_dst) (use_min_told _ _)

finish_new_told :
    (null retire : ℕ) (m : ConnidGen) (w : World)
    → m.dst_active ≤ retire
    → (m' : ConnidGen) × (w' : World) × (finish_new (λ i. true) null retire m w
        ≡ returned success m' w')
      × (retires m.dst_active w'.ctrls ≡ retires m.dst_active w.ctrls + 1)
unfolding finish_new
finish_new_told null retire m w le =
    let t : leb m.dst_active retire ≡ true = ground arith in
    (
      (update_dst (λ i. true) null m w).0,
      (update_dst (λ i. true) null m w).1,
      rw (t, finish_new),
      ap (retires m.dst_active) (update_dst_told null m w)
          ∙ ground (arith, retires-append m.dst_active m.dst_active w.ctrls),
    )

add_dst_told :
    (null : ℕ) (f : NewConnectionId) (m : ConnidGen) (w : World)
    → f.seq ≢ m.dst_active
    → m.dst_active ≤ f.retire
    → (m' : ConnidGen) × (w' : World) × (add_dst (λ i. true) null f m w ≡ returned success m' w')
      × (retires m.dst_active w'.ctrls ≡ retires m.dst_active w.ctrls + 1)
unfolding add_dst
add_dst_told null f m w n le = go (find f.seq m.dsts) refl
  where
    t : f.seq == m.dst_active ≡ false
    t = ground arith

    go :
        (o : Option Gened)
        → find f.seq m.dsts ≡ o
        → (m' : ConnidGen) × (w' : World) × (add_dst (λ i. true) null f m w
            ≡ returned success m' w')
          × (retires m.dst_active w'.ctrls ≡ retires m.dst_active w.ctrls + 1)
    go (some g) e =
        let (m', w', d, v) = finish_new_told null f.retire m w le in
        (m', w', rw (t, e, add_dst) d, v)
    go none e =
        let g : Gened = record {
          key = f.seq;
          connid = record { buf = w.mallocs + 1; bytes = f.conn };
        } in
        let (m', w', d, v) =
          finish_new_told null f.retire (record m { dsts = insert g m.dsts }) (called (called w))
            le in
        (m', w', rw (t, e, add_dst) d, v)

-- The state in which add_dst is called after the loop.
module _ (null : ℕ) (f : NewConnectionId) (m : ConnidGen) (w : World) (h : IsInUse m w) where
  upto : Upto 0 f.retire m.dsts w (retire_upto (λ i. true) f.retire m.dsts w)
  upto = retire_upto-Upto 0 f.retire m.dsts w h.pool.ordered h.pool.live h.pool.freed_lt

  abbrev left : List Gened
  left = (retire_upto (λ i. true) f.retire m.dsts w).1

  abbrev after : World
  after = (retire_upto (λ i. true) f.retire m.dsts w).2

  handle_lem :
      m.dst_hretire ≤ f.seq
      → m.dst_hretire < f.retire
      → handle_new_connection_id (λ i. true) null f m w
        ≡ add_dst (λ i. true) null f (record m { dsts = left; dst_hretire = f.retire }) after
  unfolding handle_new_connection_id
  handle_lem lo hi =
      let t : ltb f.seq m.dst_hretire ≡ false = ground arith in
      let u : ltb m.dst_hretire f.retire ≡ true = ground arith in rw (t, u, upto.all)

  -- From a session whose peer identifier is in use, in memory that is not freed, it is so after a
  -- NEW_CONNECTION_ID frame whose number is not that of the identifier in use, whatever the frame
  -- retires, where memory is granted; the frame is handled with success.
  pub handle_new-IsInUse :
      f.seq ≢ m.dst_active
      → (m' : ConnidGen) × (w' : World) × (handle_new_connection_id (λ i. true) null f m w
          ≡ returned success m' w')
        × IsInUse m' w'
  unfolding handle_new_connection_id
  handle_new-IsInUse n = elim (Bool-cases (ltb f.seq m.dst_hretire)) [
    | inl old ↦ (
      m,
      ctrl (retire_frame f.seq) (called w),
      rw (old, handle_new_connection_id),
      record { pool = IsPool-more m.dsts w _ refl (omega arith) h.pool; active = h.active },
    )
    | inr new ↦ elim (Bool-cases (ltb m.dst_hretire f.retire)) [
      | inl more ↦
          let (m', w', e, v) =
            add_dst-IsInUse null f (record m { dsts = left; dst_hretire = f.retire }) after
              (record { ordered = upto.ordered; live = upto.live; freed_lt = upto.freed_lt }) n
              gone_or_not (λ none_left. ground (arith, upto.found m.dst_active, h.active)) in
          (m', w', handle_lem (ground arith) (ground arith) ∙ e, v)
      | inr same ↦
          let (m', w', e, v) =
            add_dst-IsInUse null f m w h.pool n (inl h.active)
              (λ gone. absurd (ground (arith, h.active))) in
          (m', w', rw (new, same, handle_new_connection_id) e, v)
    ]
  ]
    where
      gone_or_not :
          (find m.dst_active left ≡ some (record { key = m.dst_active; connid = after.dst }))
          ⊎ (find m.dst_active left ≡ none)
      gone_or_not = elim (Bool-cases (leb m.dst_active f.retire)) [
        | inl low ↦ inr (upto.found m.dst_active ∙ rw low)
        | inr high ↦ inl (upto.found m.dst_active ∙ rw (high, upto.dst) h.active)
      ]

  -- From a session whose peer identifier is in use, where memory is granted, a NEW_CONNECTION_ID
  -- frame with the number of that identifier, no less than what was retired before, which retires
  -- it and more than was retired before, is handled with success and leaves the session with an
  -- identifier whose memory is freed.
  pub handle_new_dangling :
      f.seq ≡ m.dst_active
      → m.dst_hretire ≤ f.seq
      → m.dst_hretire < f.retire
      → m.dst_active ≤ f.retire
      → (m' : ConnidGen) × (w' : World) × (handle_new_connection_id (λ i. true) null f m w
          ≡ returned success m' w')
        × (w'.dst ≡ w.dst)
        × (has w'.dst.buf w'.freed ≡ true)
  unfolding add_dst
  handle_new_dangling e lo hi le =
      let t : f.seq == m.dst_active ≡ true = ground arith in
      (
        record m { dsts = left; dst_hretire = f.retire },
        after,
        handle_lem lo hi ∙ rw (t, add_dst),
        upto.dst,
        rw upto.dst (upto.freed m.dst_active _ h.active le),
      )

  -- A frame with another number that retires the identifier in use, and more than was retired
  -- before, has it retired twice: two RETIRE_CONNECTION_ID frames carry its number.
  pub handle_new_retires_twice :
      f.seq ≢ m.dst_active
      → m.dst_hretire ≤ f.seq
      → m.dst_hretire < f.retire
      → m.dst_active ≤ f.retire
      → (m' : ConnidGen) × (w' : World) × (handle_new_connection_id (λ i. true) null f m w
          ≡ returned success m' w')
        × (retires m.dst_active w'.ctrls ≡ retires m.dst_active w.ctrls + 2)
  handle_new_retires_twice n lo hi le =
      let (m', w', e, told) =
        add_dst_told null f (record m { dsts = left; dst_hretire = f.retire }) after n le in
      (m', w', handle_lem lo hi ∙ e, omega (arith, told, upto.told m.dst_active ∙ once))
    where
      once :
          retires m.dst_active w.ctrls
            + (if leb m.dst_active f.retire
                then elim (find m.dst_active m.dsts) [ none ↦ 0 | some g ↦ 1 ]
                else 0)
          ≡ retires m.dst_active w.ctrls + 1
      once = ground (arith, h.active)
