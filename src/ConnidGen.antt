-- ===== src/ConnidGen.antt =====
-- src/modules/connid_gen.c and connid_gen.h: the connection identifiers of both sides.
-- A tree is a list in the order of its keys. Memory has addresses, the number of the call of malloc
-- that gave it, so that the session's identifiers, which share it with those in the trees, can be
-- seen to be freed. `granted` is malloc's answer to each call.
use openquic.Common.{
  ℕ, zero, suc, ◌+◌, ◌^◌, ◌%◌, Bool, true, false, not, ◌||◌, List, [], ◌∷◌, ◌++◌, Option, none,
  some, length, ltb, leb, ◌==◌, if◌then◌else◌, add64, Err, success, not_implemented, internal_error,
  bad_format,
}
use openquic.Frame.{Frame, NewConnectionId, RetireConnectionId}
use mathlib.Core.List.{map}
pub mod Trees
pub mod Pool
pub mod Source
pub mod Destination
pub mod InUse
mod Tests

-- quic_buf_t of an identifier: its memory, and the bytes in it.
pub record Connid : Type 0 where
  pub buf : ℕ
  pub bytes : List ℕ

-- quic_connid_gened_t
pub record Gened : Type 0 where
  pub key : ℕ
  pub connid : Connid

-- quic_connid_gen_module_t. The callbacks are those of a server; `none` stands for NULL.
pub record ConnidGen : Type 0 where
  pub connid_len : ℕ
  pub src_hseq : ℕ
  pub dst_hretire : ℕ
  pub srcs : List Gened
  pub dsts : List Gened
  pub dst_active : ℕ
  pub new_connid : Option (List ℕ → Bool)
  pub retire_connid : Bool

-- What the module shares with others: the identifiers of the session, the queue of the framer, the
-- identifiers given to retire_connid, what was freed, and the number of calls of malloc.
pub record World : Type 0 where
  pub src : Connid
  pub dst : Connid
  pub ctrls : List Frame
  pub retired : List Connid
  pub freed : List ℕ
  pub mallocs : ℕ

-- A call returns, writes through NULL, or goes on drawing identifiers.
pub data Outcome : Type 0 where
  returned : Err → ConnidGen → World → Outcome
  undefined : Outcome
  drawing : Outcome

abbrev pub called : World → World
called w = record w { mallocs = w.mallocs + 1 }

abbrev pub free : ℕ → World → World
free p w = record w { freed = p ∷ w.freed }

-- quic_framer_ctrl
abbrev pub ctrl : Frame → World → World
ctrl f w = record w { ctrls = w.ctrls ++ f ∷ [] }

-- liteco_rbt_find, liteco_rbt_insert and liteco_rbt_remove, of keys.
unfoldable pub find : ℕ → List Gened → Option Gened
find k [] = none
find k (g ∷ gs) = let rest = find k gs in if g.key == k then some g else rest

unfoldable pub insert : Gened → List Gened → List Gened
insert g [] = g ∷ []
insert g (h ∷ hs) = let rest = insert g hs in if ltb h.key g.key then h ∷ rest else g ∷ h ∷ hs

unfoldable pub remove : ℕ → List Gened → List Gened
remove k [] = []
remove k (g ∷ gs) = let rest = remove k gs in if g.key == k then gs else g ∷ rest

-- quic_connid_gen_module_init
unfoldable pub init : ℕ → ConnidGen
init connid_len = record {
  connid_len = connid_len;
  src_hseq = 0;
  dst_hretire = 0;
  srcs = [];
  dsts = [];
  dst_active = 0;
  new_connid = none;
  retire_connid = false;
}

-- RETIRE_CONNECTION_ID as the module fills it in.
abbrev pub retire_frame : ℕ → Frame
retire_frame seq = Frame.retire_connection_id (record { first_byte = 0x19; seq = seq })

-- NEW_CONNECTION_ID, whose token is never set.
abbrev pub new_frame : ℕ → List ℕ → Frame
new_frame seq conn = Frame.new_connection_id (record {
  first_byte = 0x18;
  seq = seq;
  retire = 0;
  len = length conn;
  conn = conn;
  token = [];
})

-- The loop of quic_connid_gen_issue_src over what RAND_bytes draws.
unfoldable pub draw : Option (List ℕ → Bool) → List (List ℕ) → Option (List ℕ)
draw accept [] = none
draw none (d ∷ ds) = some d
draw (some accept) (d ∷ ds) = let rest = draw (some accept) ds in if accept d then some d else rest

-- The result of quic_connid_gen_issue_src is not looked at.
abbrev pub ignoring : Outcome → Outcome
ignoring o = elim o [
  | returned e m w ↦ returned success m w
  | undefined ↦ undefined
  | drawing ↦ drawing
]

-- The end of quic_connid_gen_update_dst.
unfoldable pub use_min : ConnidGen → World → ConnidGen × World
use_min m w = elim m.dsts [
  | [] ↦ (m, w)
  | g ∷ gs ↦ (record m { dst_active = g.key }, record w { dst = g.connid })
]

module _ (granted : ℕ → Bool) where
  -- quic_connid_gen_module_start
  unfoldable pub start : ConnidGen → World → Outcome
  start m w =
      if not (granted w.mallocs)
      then returned internal_error m (called w)
      else (let m1 = record m { srcs = insert (record { key = 0; connid = w.src }) m.srcs } in
          if not (granted (w.mallocs + 1))
          then returned internal_error m1 (called (called w))
          else returned success
              (record m1 { dsts = insert (record { key = 0; connid = w.dst }) m1.dsts })
              (called (called w)))

  -- The part of quic_connid_gen_issue_src behind the loop.
  unfoldable pub issue_drawn : Connid → ConnidGen → World → Outcome
  issue_drawn connid m w =
      if not (granted w.mallocs)
      then returned internal_error m (called w)
      else (let seq = add64 m.src_hseq 1 in
          let m' = record m {
            src_hseq = seq;
            srcs = insert (record { key = seq; connid = connid }) m.srcs;
          } in
          if not (granted (w.mallocs + 1))
          then returned internal_error m' (called (called w))
          else returned success m' (ctrl (new_frame seq connid.bytes) (called (called w))))

  -- quic_connid_gen_issue_src. `draws` are the results of RAND_bytes in turn.
  unfoldable pub issue_src : List (List ℕ) → ConnidGen → World → Outcome
  unfolding issue_drawn
  issue_src draws m w =
      if m.connid_len == 0 || ltb 20 m.connid_len
      then returned internal_error m (called w)
      else if not (granted w.mallocs)
      then undefined
      else elim (draw m.new_connid draws) [
        | none ↦ drawing
        | some d ↦ issue_drawn (record { buf = w.mallocs; bytes = d }) m (called w)
      ]

  -- The part of quic_connid_gen_retire_src behind the search.
  unfoldable pub retire_found : List (List ℕ) → ℕ → Gened → ConnidGen → World → Outcome
  unfolding issue_src
  retire_found draws seq g m w =
      let w1 = if m.retire_connid then record w { retired = w.retired ++ g.connid ∷ [] } else w in
      let m1 = record m { srcs = remove seq m.srcs } in
      if seq == 0
      then returned success m1 (free g.connid.buf w1)
      else ignoring (issue_src draws m1 (free g.connid.buf w1))

  -- quic_connid_gen_retire_src, which is also quic_session_handle_retire_connection_id_frame.
  unfoldable pub retire_src : List (List ℕ) → ℕ → ConnidGen → World → Outcome
  unfolding retire_found
  retire_src draws seq m w =
      if ltb m.src_hseq seq then returned not_implemented m w else elim (find seq m.srcs) [
        | none ↦ returned success m w
        | some g ↦ retire_found draws seq g m w
      ]

  -- The loop of quic_session_handle_new_connection_id_frame: whether memory was enough, what is left
  -- of `dsts`, and the world.
  unfoldable pub retire_upto : ℕ → List Gened → World → Bool × List Gened × World
  retire_upto retire [] w = (true, [], w)
  retire_upto retire (g ∷ gs) w =
      let rest = retire_upto retire gs (free g.connid.buf (ctrl (retire_frame g.key) (called w))) in
      if not (leb g.key retire)
      then (true, g ∷ gs, w)
      else if not (granted w.mallocs)
      then (false, g ∷ gs, called w)
      else rest

  -- quic_connid_gen_update_dst. Its result is not looked at. quic_buf_init leaves NULL, which no call
  -- of malloc gave; `null` is that address.
  unfoldable pub update_dst : ℕ → ConnidGen → World → ConnidGen × World
  unfolding use_min
  update_dst null m w =
      if not (granted w.mallocs)
      then (m, called w)
      else (let m1 = record m {
        dst_hretire = (if ltb m.dst_hretire m.dst_active then m.dst_active else m.dst_hretire);
      } in
          let w1 = ctrl (retire_frame m.dst_active) (called w) in
          elim (find m1.dst_active m1.dsts) [
            | none ↦ use_min m1 w1
            | some g ↦
                use_min (record m1 { dsts = remove m1.dst_active m1.dsts })
                  (record w1 {
                    freed = g.connid.buf ∷ w1.freed;
                    dst = record { buf = null; bytes = [] };
                  })
          ])

  -- The last statement of quic_session_handle_new_connection_id_frame.
  unfoldable pub finish_new : ℕ → ℕ → ConnidGen → World → Outcome
  unfolding update_dst
  finish_new null retire m w =
      if leb m.dst_active retire
      then (let (m', w') = update_dst null m w in returned success m' w')
      else returned success m w

  -- The part of quic_session_handle_new_connection_id_frame behind the loop.
  unfoldable pub add_dst : ℕ → NewConnectionId → ConnidGen → World → Outcome
  unfolding finish_new
  add_dst null f m w =
      if f.seq == m.dst_active then returned success m w else elim (find f.seq m.dsts) [
        | some g ↦ finish_new null f.retire m w
        | none ↦
            if not (granted w.mallocs)
            then returned internal_error m (called w)
            else if not (granted (w.mallocs + 1))
            then returned internal_error m (called (called w))
            else finish_new null f.retire
                (record m {
                  dsts =
                      insert
                        (record {
                          key = f.seq;
                          connid = record { buf = w.mallocs + 1; bytes = f.conn };
                        })
                        m.dsts;
                })
                (called (called w))
      ]

  -- quic_session_handle_new_connection_id_frame
  unfoldable pub handle_new_connection_id : ℕ → NewConnectionId → ConnidGen → World → Outcome
  unfolding add_dst
  handle_new_connection_id null f m w =
      if ltb f.seq m.dst_hretire
      then (if granted w.mallocs
          then returned success m (ctrl (retire_frame f.seq) (called w))
          else returned internal_error m (called w))
      else if ltb m.dst_hretire f.retire
      then (let (all, gs, w') = retire_upto f.retire m.dsts w in
          if all
          then add_dst null f (record m { dsts = gs; dst_hretire = f.retire }) w'
          else returned internal_error (record m { dsts = gs }) w')
      else add_dst null f m w

-- quic_connid_gen_foreach_src: the identifiers that the callback is given.
unfoldable pub foreach_src : ConnidGen → List Connid
foreach_src m = map (λ g. g.connid) m.srcs

-- The frees of quic_connid_gen_module_destory; the code takes the roots of the trees in turn.
unfoldable pub destory : ConnidGen → World → ConnidGen × World
destory m w = (
  record m { srcs = []; dsts = [] },
  record w { freed = map (λ g. g.connid.buf) (m.srcs ++ m.dsts) ++ w.freed },
)

-- quic_connid_gen_retire_all: the identifiers that retire_connid is called with.
unfoldable pub retire_all : ConnidGen → World → World
retire_all m w = if m.retire_connid then record w { retired = w.retired ++ foreach_src m } else w
