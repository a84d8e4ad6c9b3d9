-- ===== src/Framer.antt =====
-- src/modules/framer.c and framer.h: the streams that have something to send, in turn, and the control
-- frames that wait. The tree of active streams is a list of their numbers. A frame that is lost is
-- given to the retransmission module, which is not modelled here.
use openquic.Common.{
  ℕ, Bool, true, false, not, ◌&&◌, ◌||◌, List, [], ◌∷◌, ◌++◌, Option, none, some, length, ltb, ◌==◌,
  if◌then◌else◌, Err, success, internal_error,
}
use openquic.Frame
use openquic.Frame.{Frame}
use openquic.Frame.Dispatch.{frame_size}
use openquic.Sorter.Rbt.{Tree}
use openquic.Stream.Send.{generate}
use openquic.Stream.Sets.{
  Settings, Event, Stream, StreamModule, replace, on_streams, send_relation_stream, which_of,
}
pub mod Active
pub mod Sizes
pub mod Turns
pub mod Ctrls
mod Tests

-- quic_framer_module_t
pub record Framer : Type 0 where
  pub active_set : List ℕ
  pub active_queue : List ℕ
  pub ctrls : List Frame

-- quic_framer_module_init
unfoldable pub init : Framer
init = record { active_set = []; active_queue = []; ctrls = [] }

-- quic_framer_module_destory: all lists are freed.
unfoldable pub destory : Framer → Framer
destory m = record { active_set = []; active_queue = []; ctrls = [] }

-- quic_framer_ctrl
unfoldable pub ctrl : Frame → Framer → Framer
ctrl f m = record m { ctrls = m.ctrls ++ f ∷ [] }

-- A call of quic_framer_ctrl that is made or not.
abbrev pub also_ctrl : Option Frame → Framer → Framer
also_ctrl none m = m
also_ctrl (some f) m = record m { ctrls = m.ctrls ++ f ∷ [] }

-- quic_framer_ctrl_empty
unfoldable pub ctrl_empty : Framer → Bool
ctrl_empty m = length m.ctrls == 0

-- quic_framer_empty
unfoldable pub is_empty : Framer → Bool
is_empty m = length m.active_queue == 0 && length m.ctrls == 0

-- liteco_rbt_find and liteco_rbt_remove on the set.
unfoldable pub has : ℕ → List ℕ → Bool
has k [] = false
has k (j ∷ js) = j == k || has k js

unfoldable pub remove : ℕ → List ℕ → List ℕ
remove k [] = []
remove k (j ∷ js) = let rest = remove k js in if j == k then js else j ∷ rest

-- quic_framer_add_active: the code, the module, and whether the sender is activated. The two Booleans
-- are malloc's answers for the nodes of the set and of the queue.
unfoldable pub add_active : Bool → Bool → ℕ → Framer → Err × Framer × Bool
unfolding has
add_active for_set for_queue sid m =
    if has sid m.active_set
    then (success, m, true)
    else if not for_set
    then (internal_error, m, false)
    else if not for_queue
    then (internal_error, record m { active_set = sid ∷ m.active_set }, false)
    else (
      success,
      record m { active_set = sid ∷ m.active_set; active_queue = m.active_queue ++ sid ∷ [] },
      true,
    )

-- The loop of quic_framer_append_ctrl_frame: the first frame that fits, with its size, and what is
-- left; `none` where a size is read out of another struct.
unfoldable pub take_fitting : ℕ → List Frame → Option (Option (ℕ × Frame) × List Frame)
take_fitting capa [] = some (none, [])
take_fitting capa (f ∷ fs) =
    let rest = take_fitting capa fs in
    elim (frame_size f) [
      | none ↦ none
      | some n ↦
          if ltb capa n
          then elim rest [ none ↦ none | some (found, left) ↦ some (found, f ∷ left) ]
          else some (some (n, f), fs)
    ]

-- quic_framer_append_ctrl_frame
unfoldable pub append_ctrl_frame : ℕ → List Frame → Framer → Option (ℕ × List Frame × Framer)
unfolding take_fitting
append_ctrl_frame capa frames m = elim (take_fitting capa m.ctrls) [
  | none ↦ none
  | some (none, left) ↦ some (0, frames, m)
  | some (some (n, f), left) ↦ some (n, frames ++ f ∷ [], record m { ctrls = left })
]

-- What quic_framer_append_stream_frame leaves: the length it returns, the frames of the packet, the
-- modules, and the callbacks; or the head of the queue is read as a stream's number, or a size out of
-- another struct.
module _ (T : Tree) where
  pub data Appended : Type 0 where
    appended : ℕ → List Frame → Framer → StreamModule T → List Event → Appended
    wild : Appended

  module _ (cfg : Settings) (make : ℕ → Stream T) (for_blocked for_frame : Bool) (capa : ℕ)
      (fill : Bool) where
    -- The part behind the search: the stream makes a frame, and waits for its next turn.
    unfoldable pub append_of :
        ℕ → List ℕ → Stream T → List Frame → Framer → StreamModule T → List Event → Appended
    append_of sid queue x frames m sm events =
        let g = generate for_blocked for_frame x.key capa fill x.send x.flow in
        let sm' =
          on_streams T (which_of T cfg sid) (replace T (record x { send = g.send; flow = g.flow }))
            sm in
        let m' = also_ctrl g.ctrl m in
        elim g.frame [
          | none ↦ appended 0 frames (record m' { active_queue = queue ++ sid ∷ [] }) sm' events
          | some fr ↦ elim (frame_size (Frame.stream fr)) [
            | none ↦ wild
            | some n ↦
                if g.empty
                then appended n (frames ++ Frame.stream fr ∷ [])
                    (record m' { active_queue = queue; active_set = remove sid m'.active_set }) sm'
                    events
                else appended n (frames ++ Frame.stream fr ∷ [])
                    (record m' { active_queue = queue ++ sid ∷ [] }) sm' events
          ]
        ]

    -- The part behind the test of the set, with the queue.
    unfoldable pub append_next : List ℕ → List Frame → Framer → StreamModule T → Appended
    unfolding append_of
    append_next [] frames m sm = wild
    append_next (sid ∷ queue) frames m sm =
        let (found, sm', events) = send_relation_stream T cfg make sid sm in
        elim found [
          | none ↦
              appended 0 frames
                (record m { active_queue = queue; active_set = remove sid m.active_set }) sm' events
          | some x ↦ append_of sid queue x frames m sm' events
        ]

    -- quic_framer_append_stream_frame
    unfoldable pub append_stream_frame : List Frame → Framer → StreamModule T → Appended
    unfolding append_next
    append_stream_frame frames m sm =
        if length m.active_set == 0
        then appended 0 frames m sm []
        else append_next m.active_queue frames m sm
