-- ===== src/Stream/Recv.antt =====
-- The receiving half of src/modules/stream.c, quic_recv_stream_t, over the sorter.
use openquic.Common.{
  ℕ, zero, suc, ◌-◌, Bool, true, false, not, ◌&&◌, ◌||◌, List, [], ◌++◌, Option, none, some, length,
  leb, ◌==◌, if◌then◌else◌, add64, Err, success, closed, internal_error,
}
use openquic.Frame
use openquic.Frame.Parse.{has_flag}
use openquic.Sorter
use openquic.Sorter.{Sorter, Outcome, returned, undefined, readable}
use openquic.Sorter.Rbt.{Tree}
use openquic.Sorter.Gaps.{max_size}
use openquic.StreamFlowctrl
use openquic.StreamFlowctrl.{StreamFlowctrl, Config, update_rwnd}
use openquic.ConnFlowctrl.{ConnFlowctrl}

unfoldable pub is_success : Err → Bool
is_success success = true
is_success e = false

module _ (T : Tree) where
  -- quic_recv_stream_t
  pub record RecvStream : Type 0 where
    pub sorter : Sorter T
    pub read_off : ℕ
    pub final_off : ℕ
    pub fin_flag : Bool
    pub deadline : ℕ
    pub is_closed : Bool

  -- quic_recv_stream_init; `none` is a sorter that has no gap for want of memory.
  unfoldable pub init : Bool → Option RecvStream
  init granted = elim (Sorter.init T granted) [
    | none ↦ none
    | some sorter ↦ some (record {
      sorter = sorter;
      read_off = 0;
      final_off = max_size;
      fin_flag = false;
      deadline = 0;
      is_closed = false;
    })
  ]

  -- quic_recv_stream_close: whether the credit of what was not read is given back.
  unfoldable pub close : RecvStream → RecvStream × Bool
  close s =
      if s.is_closed
      then (s, false)
      else (record s { is_closed = true; sorter = Sorter.destory T s.sorter }, s.fin_flag)

  -- What quic_recv_stream_handle_frame does: the states, whether fin_chan is closed, and whether the
  -- reader is woken; or the sorter does what is undefined. The code returned is always
  -- quic_err_success.
  pub data Handled : Type 0 where
    handled : RecvStream → StreamFlowctrl → ConnFlowctrl → Bool → Bool → Handled
    wild : Handled

  -- The end of it, after quic_sorter_write. An error is not passed on.
  unfoldable pub after_write :
      RecvStream → StreamFlowctrl → ConnFlowctrl → Bool → Outcome T → Handled
  unfolding is_success
  after_write s f c fin undefined = wild
  after_write s f c fin (returned e sorter) =
      handled (record s { sorter = sorter }) f c fin
        (is_success e && not (readable T s.sorter == readable T sorter))

  -- The final offset that a frame with the end tells.
  abbrev pub ended : Bool → ℕ → RecvStream → RecvStream
  ended fin t_off s = if fin then record s { final_off = t_off; fin_flag = true } else s

  -- quic_recv_stream_handle_frame, of a frame whose payload has `len` bytes. `for_gap` and `granted`
  -- are malloc's answers in quic_sorter_write.
  unfoldable pub handle_frame :
      Bool → (ℕ → Bool) → Frame.Stream → RecvStream → StreamFlowctrl → ConnFlowctrl → Handled
  handle_frame for_gap granted fr s f c =
      let t_off = add64 fr.off fr.len in
      let fin = has_flag 0x09 fr.first_byte in
      let (f', c') = update_rwnd t_off fin f c in
      if s.is_closed
      then handled (ended fin t_off s) f' c' fin false
      else if fr.len == 0
      then handled (ended fin t_off s) f' c' fin (fin && not s.fin_flag)
      else after_write (ended fin t_off s) f' c' fin
          (Sorter.write T for_gap granted fr.off fr.payload (ended fin t_off s).sorter)

  -- What a read comes to: it is done, with the bytes that were read, and whether flow control called
  -- quic_stream_module_update_rwnd; it waits, with the length that is still wanted; or flow control
  -- divides by 0.
  pub data Reading : Type 0 where
    finished : List (Option ℕ) → RecvStream → StreamFlowctrl → ConnFlowctrl → Bool → Reading
    waits : ℕ → RecvStream → StreamFlowctrl → ConnFlowctrl → Reading
    fault : Reading

  abbrev Loop : Type 0
  Loop = Bool → Bool → ℕ → List (Option ℕ) → RecvStream → StreamFlowctrl → ConnFlowctrl → Reading

  module _ (cfg : Config) (rtt now : ℕ) where
    -- The rest of a round, behind the wait. `next` is the next round.
    unfoldable pub read_once :
        Loop → Bool → ℕ → List (Option ℕ) → RecvStream → StreamFlowctrl → ConnFlowctrl → Reading
    read_once next told len out s f c =
        let (bytes, sorter) = Sorter.read T len s.sorter in
        let n = length bytes in
        if n == 0
        then finished out (record s { sorter = sorter }) f c told
        else elim (StreamFlowctrl.read cfg rtt now n f c) [
          | none ↦ fault
          | some (f', c', updated) ↦
              next true (told || updated) (len - n) (out ++ bytes) (record s { sorter = sorter }) f'
                c'
        ]

    -- The rounds of quic_stream_read_co, on fuel. `readed` tells whether something was read, and
    -- `told` whether the credit has moved since.
    unfoldable pub read_loop : ℕ → Loop
    unfolding read_once
    read_loop zero readed told len out s f c = finished out s f c told
    read_loop (suc n) readed told len out s f c =
        if s.is_closed
        then finished out s f c told
        else if len == 0
        then finished out s f c told
        else if s.fin_flag && leb s.final_off s.sorter.readed_size
        then finished out s f c told
        else if readable T s.sorter == 0
        then (if readed then finished out s f c told else waits len s f c)
        else read_once (read_loop n) told len out s f c

    -- quic_stream_read_co from the start. Each round but the last reads a byte at least.
    unfoldable pub read_start : ℕ → RecvStream → StreamFlowctrl → ConnFlowctrl → Reading
    unfolding read_loop
    read_start len s f c = read_loop (suc len) false false len [] s f c

    -- After the wait: on time the sorter is read without another test.
    unfoldable pub read_resume : Bool → ℕ → RecvStream → StreamFlowctrl → ConnFlowctrl → Reading
    unfolding read_loop read_once
    read_resume timed_out len s f c =
        if timed_out then finished [] s f c false else read_once (read_loop len) false len [] s f c

  -- quic_stream_read: what is returned before the loop.
  unfoldable pub read : Bool → RecvStream → Err
  read granted s = if s.is_closed then closed else if granted then success else internal_error
