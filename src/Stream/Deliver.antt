-- ===== src/Stream/Deliver.antt =====
-- What the receiving half of src/modules/stream.c delivers.
use openquic.Common.{
  ℕ, ◌+◌, ◌-◌, ◌<◌, ◌≡◌, refl, ap, sym, ◌∙◌, inl, inr, arith, Bool, true, false, not, ◌&&◌, ◌||◌,
  length, ltb, leb, ◌==◌, Bool-cases, add64, success,
}
use mathlib.Core.Path.{subst}
use openquic.Frame
use openquic.Frame.Parse.{has_flag}
use openquic.Sorter
use openquic.Sorter.{Sorter, Outcome, returned, undefined, readable}
use openquic.Sorter.Rbt.{Tree}
use openquic.Sorter.Gaps.{max_size}
use openquic.Sorter.Missing.{missing, MeetsPart}
use openquic.Sorter.Stream.{Holds, Carries, write-Holds}
use openquic.StreamFlowctrl.{StreamFlowctrl, update_rwnd}
use openquic.ConnFlowctrl.{ConnFlowctrl}
use openquic.Stream.Recv.{
  RecvStream, Handled, handled, is_success, after_write, ended, handle_frame,
}

module _ (T : Tree) (stream : ℕ → ℕ) where
  -- What a STREAM frame leaves behind: the stream is held as before, the offsets of the frame are no
  -- longer missing, the final offset is set where the frame tells it, flow control was told, and the
  -- reader is woken if there is more to read or the end was not known.
  pub record Delivered (fr : Frame.Stream) (s : RecvStream T) (f : StreamFlowctrl)
      (c : ConnFlowctrl) (r : Handled T) : Type 0 where
    pub after : RecvStream T
    pub woken : Bool
    pub result :
        r
        ≡ handled after
            (update_rwnd (add64 fr.off fr.len) (has_flag 0x09 fr.first_byte) f c).0
            (update_rwnd (add64 fr.off fr.len) (has_flag 0x09 fr.first_byte) f c).1
            (has_flag 0x09 fr.first_byte)
            woken
    pub holds : Holds T stream after.sorter
    pub unread : after.sorter.readed_size ≡ s.sorter.readed_size
    pub taken :
        (i : ℕ)
        → missing i after.sorter.gaps
          ≡ (missing i s.sorter.gaps && not (leb fr.off i && ltb i (fr.off + fr.len)))
    pub fin : after.fin_flag ≡ (s.fin_flag || has_flag 0x09 fr.first_byte)
    pub final : has_flag 0x09 fr.first_byte ≡ true → after.final_off ≡ fr.off + fr.len
    pub not_final : has_flag 0x09 fr.first_byte ≡ false → after.final_off ≡ s.final_off
    pub read_off : after.read_off ≡ s.read_off
    pub deadline : after.deadline ≡ s.deadline
    pub is_open : after.is_closed ≡ false
    pub notified : 0 < fr.len → woken ≡ not (readable T after.sorter == readable T s.sorter)
    pub notified_end : fr.len ≡ 0 → woken ≡ (has_flag 0x09 fr.first_byte && not s.fin_flag)

  -- What noting the end changes, and what not.
  record Noted (fin : Bool) (t_off : ℕ) (s s' : RecvStream T) : Type 0 where
    sorter : s'.sorter ≡ s.sorter
    flagged : s'.fin_flag ≡ (s.fin_flag || fin)
    final : fin ≡ true → s'.final_off ≡ t_off
    not_final : fin ≡ false → s'.final_off ≡ s.final_off
    read_off : s'.read_off ≡ s.read_off
    deadline : s'.deadline ≡ s.deadline
    is_closed : s'.is_closed ≡ s.is_closed

  ended-Noted :
      (fin : Bool) (t_off : ℕ) (s : RecvStream T) → Noted fin t_off s (ended T fin t_off s)
  ended-Noted true t_off s = record {
    sorter = refl;
    flagged = ground arith;
    final = λ e. refl;
    not_final = λ e. absurd (ground arith);
    read_off = refl;
    deadline = refl;
    is_closed = refl;
  }
  ended-Noted false t_off s = record {
    sorter = refl;
    flagged = ground arith;
    final = λ e. absurd (ground arith);
    not_final = λ e. refl;
    read_off = refl;
    deadline = refl;
    is_closed = refl;
  }

  quiet_lem :
      (granted : ℕ → Bool) (fr : Frame.Stream) (s : RecvStream T) (f : StreamFlowctrl)
      (c : ConnFlowctrl)
      → s.is_closed ≡ false
      → fr.len == 0 ≡ true
      → let t_off = add64 fr.off fr.len in
        let fin = has_flag 0x09 fr.first_byte in
        handle_frame T true granted fr s f c
        ≡ handled
            (ended T fin t_off s)
            (update_rwnd t_off fin f c).0
            (update_rwnd t_off fin f c).1
            fin
            (fin && not s.fin_flag)
  unfolding handle_frame
  quiet_lem granted fr s f c o e = rw (o, e)

  written_lem :
      (granted : ℕ → Bool) (fr : Frame.Stream) (s : RecvStream T) (f : StreamFlowctrl)
      (c : ConnFlowctrl)
      → s.is_closed ≡ false
      → fr.len == 0 ≡ false
      → let t_off = add64 fr.off fr.len in
        let fin = has_flag 0x09 fr.first_byte in
        handle_frame T true granted fr s f c
        ≡ after_write T
            (ended T fin t_off s)
            (update_rwnd t_off fin f c).0
            (update_rwnd t_off fin f c).1
            fin
            (Sorter.write T true granted fr.off fr.payload (ended T fin t_off s).sorter)
  unfolding handle_frame
  written_lem granted fr s f c o e = rw (o, e)

  -- On an open stream whose sorter holds the peer's data, where memory is granted, a STREAM frame
  -- of that data, whose payload has as many bytes as its length says, that ends below the
  -- greatest size, meets one gap at most and does not fill it, is delivered: the sorter goes on
  -- to hold the data, just the offsets of the frame are no longer missing, what was read stays
  -- so, and flow control counts the frame; the final offset and the end are noted just where the
  -- frame tells the end; and a reader is woken, by a frame with data, just where what can be read
  -- changed, and by one without, just where it is the first with the end.
  pub handle_frame-Delivered :
      (granted : ℕ → Bool) (fr : Frame.Stream) (s : RecvStream T) (f : StreamFlowctrl)
      (c : ConnFlowctrl)
      → s.is_closed ≡ false
      → Holds T stream s.sorter
      → length fr.payload ≡ fr.len
      → Carries T stream fr.off fr.payload
      → ((k : ℕ) → granted k ≡ true)
      → fr.off + fr.len < max_size
      → MeetsPart fr.off (fr.off + fr.len - 1) s.sorter.gaps
      → Delivered fr s f c (handle_frame T true granted fr s f c)
  unfolding after_write is_success
  handle_frame-Delivered granted fr s f c open_lem h l carries g m o =
      let t_off : ℕ = add64 fr.off fr.len in
      let fin : Bool = has_flag 0x09 fr.first_byte in
      let s1 : RecvStream T = ended T fin t_off s in
      let n : Noted fin t_off s s1 = ended-Noted fin t_off s in
      let same : s1.sorter ≡ s.sorter = n.sorter in
      let fits : t_off ≡ fr.off + fr.len = omega arith in
      elim (Bool-cases (fr.len == 0)) [
        | inl nothing ↦
            let z : fr.len ≡ 0 = ground arith in
            record {
              after = s1;
              woken = fin && not s.fin_flag;
              result = quiet_lem granted fr s f c open_lem nothing;
              holds = subst (Holds T stream) (sym same) h;
              unread = ap (λ x. x.readed_size) same;
              taken = λ i. ap (λ x. missing i x.gaps) same ∙ ground arith;
              fin = n.flagged;
              final = λ e. n.final e ∙ fits;
              not_final = n.not_final;
              read_off = n.read_off;
              deadline = n.deadline;
              is_open = n.is_closed ∙ open_lem;
              notified = λ p. absurd (omega arith);
              notified_end = λ e. refl;
            }
        | inr something ↦
            let w =
              write-Holds T stream fr.off fr.payload granted s.sorter h carries g (rw l m)
                (rw l o) in
            let e : Sorter.write T true granted fr.off fr.payload s1.sorter
                ≡ returned success w.after =
              ap (Sorter.write T true granted fr.off fr.payload) same ∙ w.success_lem in
            record {
              after = record s1 { sorter = w.after };
              woken = not (readable T s1.sorter == readable T w.after);
              result =
                  written_lem granted fr s f c open_lem something ∙ ap (after_write T s1 _ _ fin) e;
              holds = w.holds;
              unread = w.unread;
              taken = λ i. w.taken i ∙ rw l;
              fin = n.flagged;
              final = λ e. n.final e ∙ fits;
              not_final = n.not_final;
              read_off = n.read_off;
              deadline = n.deadline;
              is_open = n.is_closed ∙ open_lem;
              notified = λ p. woken_lem s1.sorter s.sorter w.after same;
              notified_end = λ e. absurd (ground arith);
            }
      ]
    where
      woken_lem :
          (x y z : Sorter T)
          → x ≡ y
          → not (readable T x == readable T z) ≡ not (readable T z == readable T y)
      woken_lem x y z p = rw p (eq_lem (readable T y) (readable T z))
        where
          eq_lem : (a b : ℕ) → not (a == b) ≡ not (b == a)
          eq_lem a b = ground arith
