-- ===== src/Stream/Read.antt =====
-- What quic_stream_read_co of src/modules/stream.c reads.
use openquic.Common.{
  ℕ, zero, suc, ◌+◌, ◌-◌, ◌<◌, ◌≡◌, refl, ap, ◌∙◌, ◌⊎◌, inl, inr, arith, Bool, true, false, ◌&&◌,
  List, [], Option, some, length, ltb, leb, ◌==◌, if◌then◌else◌, Bool-cases,
}
use openquic.Sorter
use openquic.Sorter.{Sorter, readable}
use openquic.Sorter.Rbt.{Tree}
use openquic.Sorter.Window.{window, length-window}
use openquic.Sorter.Stream.{Holds, read-Holds, readable_lem}
use openquic.StreamFlowctrl
use openquic.StreamFlowctrl.{StreamFlowctrl, Config}
use openquic.ConnFlowctrl.{ConnFlowctrl}
use openquic.Stream.Recv.{RecvStream, Reading, finished, read_once, read_loop, read_start}

same_if {ℓ} : {A : Type ℓ} (b : Bool) (x : A) → (if b then x else x) ≡ x
same_if true x = refl
same_if false x = refl

module _ (T : Tree) (stream : ℕ → ℕ) (cfg : Config) (rtt now : ℕ) where
  -- Once something was read, the loop ends where no more is wanted or there.
  finish_lem :
      (n rest : ℕ) (told : Bool) (out : List (Option ℕ)) (s : RecvStream T) (f : StreamFlowctrl)
      (c : ConnFlowctrl)
      → (rest ≡ 0) ⊎ (readable T s.sorter ≡ 0)
      → read_loop T cfg rtt now n true told rest out s f c ≡ finished out s f c told
  unfolding read_loop
  finish_lem zero rest told out s f c h = refl
  finish_lem (suc n) rest told out s f c (inl e) =
      let t : rest == 0 ≡ true = ground arith in rw t (same_if s.is_closed _)
  finish_lem (suc n) rest told out s f c (inr e) =
      let t : readable T s.sorter == 0 ≡ true = rw e in
      rw t (
        ap
          (λ r.
            if s.is_closed
            then finished out s f c told
            else if rest == 0
            then finished out s f c told
            else r)
          (same_if (s.fin_flag && leb s.final_off s.sorter.readed_size) _)
        ∙ ap (λ r. if s.is_closed then finished out s f c told else r) (same_if (rest == 0) _)
        ∙ same_if s.is_closed _)

  avail_lem : (len : ℕ) (x : Sorter T) → (Sorter.read T len x).1.avail_size ≡ x.avail_size
  unfolding Sorter.read
  avail_lem len x = refl

  -- A round of an open stream that has data to read.
  round_lem :
      (n len : ℕ) (s : RecvStream T) (f : StreamFlowctrl) (c : ConnFlowctrl)
      → s.is_closed ≡ false
      → 0 < len
      → (s.fin_flag && leb s.final_off s.sorter.readed_size) ≡ false
      → readable T s.sorter == 0 ≡ false
      → read_loop T cfg rtt now (suc n) false false len [] s f c
        ≡ read_once T cfg rtt now (read_loop T cfg rtt now n) false len [] s f c
  unfolding read_loop
  round_lem n len s f c o pos a b = let t : len == 0 ≡ false = ground arith in rw (o, t, a, b)

  read_once_lem :
      (next : Bool
        → Bool
        → ℕ
        → List (Option ℕ)
        → RecvStream T
        → StreamFlowctrl
        → ConnFlowctrl
        → Reading T)
      (len k : ℕ) (s : RecvStream T) (f f' : StreamFlowctrl) (c c' : ConnFlowctrl) (u : Bool)
      → length (Sorter.read T len s.sorter).0 ≡ k
      → 0 < k
      → StreamFlowctrl.read cfg rtt now k f c ≡ some (f', c', u)
      → read_once T cfg rtt now next false len [] s f c
        ≡ next true u
            (len - k)
            ((Sorter.read T len s.sorter).0)
            (record s { sorter = (Sorter.read T len s.sorter).1 })
            f'
            c'
  unfolding read_once
  read_once_lem next len k s f f' c c' u l pos e =
      let t : k == 0 ≡ false = ground arith in rw (l, t, e) (rw l)

  -- Where an open stream holds the peer's data and has some that was not read, the end was not
  -- reached, some is wanted, and flow control does not fail, quic_stream_read_co returns with the
  -- data that is there, as much as is wanted, in the order of the stream; the stream goes on
  -- behind it, and flow control counts it, and tells whether the peer is to be told of new
  -- credit.
  pub read_start-reads :
      (len : ℕ) (s : RecvStream T) (f f' : StreamFlowctrl) (c c' : ConnFlowctrl) (u : Bool)
      → let k =
          (if ltb (s.sorter.avail_size - s.sorter.readed_size) len
            then s.sorter.avail_size - s.sorter.readed_size
            else len) in
        s.is_closed ≡ false
        → Holds T stream s.sorter
        → s.sorter.readed_size < s.sorter.avail_size
        → (s.fin_flag ≡ true → s.sorter.readed_size < s.final_off)
        → 0 < len
        → StreamFlowctrl.read cfg rtt now k f c ≡ some (f', c', u)
        → (sorter : Sorter T) × (read_start T cfg rtt now len s f c
            ≡ finished
                (window stream s.sorter.readed_size k)
                (record s { sorter = sorter })
                f'
                c'
                u)
          × (sorter.readed_size ≡ s.sorter.readed_size + k)
          × Holds T stream sorter
  unfolding read_start read_loop
  read_start-reads len s f f' c c' u o h more fin pos e =
      let k : ℕ =
        if ltb (s.sorter.avail_size - s.sorter.readed_size) len
        then s.sorter.avail_size - s.sorter.readed_size
        else len in
      let (bytes, peeked, moved, holds) = read-Holds T stream len s.sorter h in
      let some_left : 0 < k = ground arith in
      let l : length (Sorter.read T len s.sorter).0 ≡ k =
        ap length bytes ∙ length-window stream s.sorter.readed_size k in
      let after : RecvStream T = record s { sorter = (Sorter.read T len s.sorter).1 } in
      let has_data : readable T s.sorter == 0 ≡ false =
        ground (arith, readable_lem T stream s.sorter h) in
      let not_ended : s.fin_flag && leb s.final_off s.sorter.readed_size ≡ false =
        ground (arith, fin) in
      let stop : (len - k ≡ 0) ⊎ (readable T after.sorter ≡ 0) =
        elim (Bool-cases (ltb (s.sorter.avail_size - s.sorter.readed_size) len)) [
          | inl less ↦ inr (
              ground
                (arith, readable_lem T stream after.sorter holds, avail_lem len s.sorter, moved))
          | inr all ↦ inl (ground arith)
        ] in
      (
        (Sorter.read T len s.sorter).1,
        round_lem len len s f c o pos not_ended has_data
            ∙ read_once_lem (read_loop T cfg rtt now len) len k s f f' c c' u l some_left e
            ∙ finish_lem len (len - k) u _ after f' c' stop
            ∙ ap (λ b. finished b after f' c' u) bytes,
        moved,
        holds,
      )
