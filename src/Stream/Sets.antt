-- ===== src/Stream/Sets.antt =====
-- The streams of a connection, quic_stream_module_t of src/modules/stream.h: four sets, by the side
-- that opened a stream and by its direction. A tree is a list in the order of its keys. The callbacks
-- of the application are reported as events.
use openquic.Common.{
  ℕ, Bool, true, false, not, ◌&&◌, ◌||◌, List, [], ◌∷◌, ◌++◌, Option, none, some, ltb, leb, ◌==◌,
  if◌then◌else◌, add64,
}
use openquic.Frame
use openquic.Frame.{Frame, MaxStreamData}
use openquic.Sorter.Rbt.{Tree}
use openquic.StreamFlowctrl
use openquic.StreamFlowctrl.{StreamFlowctrl, Config}
use openquic.ConnFlowctrl.{ConnFlowctrl}
use openquic.Stream.{id_transfer, id_is_bidi, id_same_principal}
use openquic.Stream.Send
use openquic.Stream.Send.{SendStream, handle_max_stream_data}
use openquic.Stream.Recv
use openquic.Stream.Recv.{RecvStream, Handled, handled, wild, handle_frame}

-- The settings of the session that the module reads.
pub record Settings : Type 0 where
  pub is_cli : Bool
  pub stream_recv_timeout : ℕ
  pub stream_destory_timeout : ℕ
  pub flowctrl : Config

-- quic_stream_destory_sid_t, whose callback is named by the event.
pub record DestorySid : Type 0 where
  pub key : ℕ
  pub destory_time : ℕ

-- The callbacks that are called, with the number of the stream.
pub data Event : Type 0 where
  accepted closed_cb destoryed : ℕ → Event

-- The set that a stream is looked for in.
pub data Which : Type 0 where
  inuni inbidi outuni outbidi : Which

module _ (T : Tree) where
  -- quic_stream_t
  pub record Stream : Type 0 where
    pub key : ℕ
    pub send : SendStream
    pub recv : RecvStream T
    pub flow : StreamFlowctrl

  -- liteco_rbt_find, liteco_rbt_insert and liteco_rbt_remove.
  unfoldable pub find : ℕ → List Stream → Option Stream
  find k [] = none
  find k (x ∷ xs) = let rest = find k xs in if x.key == k then some x else rest

  unfoldable pub insert : Stream → List Stream → List Stream
  insert x [] = x ∷ []
  insert x (y ∷ ys) = let rest = insert x ys in if ltb y.key x.key then y ∷ rest else x ∷ y ∷ ys

  unfoldable pub remove : ℕ → List Stream → List Stream
  remove k [] = []
  remove k (x ∷ xs) = let rest = remove k xs in if x.key == k then xs else x ∷ rest

  -- The stream after a function that changes it in place.
  unfoldable pub replace : Stream → List Stream → List Stream
  replace x [] = []
  replace x (y ∷ ys) = let rest = replace x ys in if y.key == x.key then x ∷ ys else y ∷ rest

  -- quic_stream_set_t
  pub record StreamSet : Type 0 where
    pub streams : List Stream
    pub next_sid : ℕ

  -- quic_stream_module_t
  pub record StreamModule : Type 0 where
    pub inuni : StreamSet
    pub inbidi : StreamSet
    pub outuni : StreamSet
    pub outbidi : StreamSet
    pub rwnd_updated : List ℕ
    pub destory_set : List DestorySid

  -- quic_stream_set_init
  unfoldable pub set_init : StreamSet
  set_init = record { streams = []; next_sid = 1 }

  -- quic_stream_module_init
  unfoldable pub init : StreamModule
  unfolding set_init
  init = record {
    inuni = set_init;
    inbidi = set_init;
    outuni = set_init;
    outbidi = set_init;
    rwnd_updated = [];
    destory_set = [];
  }

  unfoldable pub set_of : Which → StreamModule → StreamSet
  set_of Which.inuni m = m.inuni
  set_of Which.inbidi m = m.inbidi
  set_of Which.outuni m = m.outuni
  set_of Which.outbidi m = m.outbidi

  unfoldable pub with_set : Which → StreamSet → StreamModule → StreamModule
  with_set Which.inuni s m = record m { inuni = s }
  with_set Which.inbidi s m = record m { inbidi = s }
  with_set Which.outuni s m = record m { outuni = s }
  with_set Which.outbidi s m = record m { outbidi = s }

  -- The streams of one set, changed.
  abbrev pub on_streams : Which → (List Stream → List Stream) → StreamModule → StreamModule
  on_streams w change m =
      with_set w (record (set_of w m) { streams = change (set_of w m).streams }) m

  -- quic_stream_create, where memory is granted for the stream; `for_gap` is for its sorter's gap.
  unfoldable pub create : Settings → Bool → ℕ → Option Stream
  create cfg for_gap sid = elim (Recv.init T for_gap) [
    | none ↦ none
    | some recv ↦ some (record {
      key = sid;
      send = Send.init;
      recv = record recv { deadline = cfg.stream_recv_timeout };
      flow = StreamFlowctrl.init cfg.flowctrl;
    })
  ]

  -- quic_stream_open, of the stream that quic_stream_create makes for a number. The number is that of
  -- a stream of both directions, whatever `bidi` is.
  unfoldable pub open_stream : Settings → (ℕ → Stream) → Bool → StreamModule → ℕ × StreamModule
  open_stream cfg make bidi m =
      let w = (if bidi then Which.outbidi else Which.outuni) in
      let set = set_of w m in
      let sid = id_transfer true cfg.is_cli set.next_sid in
      (
        sid,
        with_set w
            (record {
              streams = insert (make sid) (elim (find sid set.streams) [
                | none ↦ set.streams
                | some x ↦ remove sid set.streams
              ]);
              next_sid = add64 set.next_sid 1;
            })
            m,
      )

  -- quic_session_open_recv_stream
  unfoldable pub open_recv_stream :
      (ℕ → Stream) → ℕ → StreamModule → Option Stream × StreamModule × List Event
  open_recv_stream make sid m =
      let w = (if id_is_bidi sid then Which.inbidi else Which.inuni) in
      elim (find sid (set_of w m).streams) [
        | some x ↦ (some x, m, [])
        | none ↦ (some (make sid), on_streams w (insert (make sid)) m, accepted sid ∷ [])
      ]

  -- quic_stream_module_recv_relation_stream
  unfoldable pub recv_relation_stream :
      Settings → (ℕ → Stream) → ℕ → StreamModule → Option Stream × StreamModule × List Event
  unfolding open_recv_stream
  recv_relation_stream cfg make sid m =
      if id_same_principal sid cfg.is_cli
      then ((if id_is_bidi sid then find sid m.outbidi.streams else none), m, [])
      else open_recv_stream make sid m

  -- quic_stream_module_send_relation_stream
  unfoldable pub send_relation_stream :
      Settings → (ℕ → Stream) → ℕ → StreamModule → Option Stream × StreamModule × List Event
  unfolding open_recv_stream
  send_relation_stream cfg make sid m =
      if id_same_principal sid cfg.is_cli
      then (
        (if id_is_bidi sid then find sid m.outbidi.streams else find sid m.outuni.streams),
        m,
        [],
      )
      else if id_is_bidi sid
      then open_recv_stream make sid m
      else (none, m, [])

  -- The set of a number, as quic_stream_module_loop and quic_streams_destory tell it.
  unfoldable pub which_of : Settings → ℕ → Which
  which_of cfg sid =
      if id_is_bidi sid
      then (if id_same_principal sid cfg.is_cli then Which.outbidi else Which.inbidi)
      else (if id_same_principal sid cfg.is_cli then Which.outuni else Which.inuni)

  -- quic_session_handle_stream_frame: the states, the events, and the outcome of the stream's handler.
  unfoldable pub handle_stream_frame :
      Settings
      → (ℕ → Stream)
      → Bool
      → (ℕ → Bool)
      → Frame.Stream
      → StreamModule
      → ConnFlowctrl
      → Option (StreamModule × ConnFlowctrl × List Event)
  unfolding recv_relation_stream
  handle_stream_frame cfg make for_gap granted fr m c =
      let (found, m', events) = recv_relation_stream cfg make fr.sid m in
      elim found [
        | none ↦ some (m', c, events)
        | some x ↦ elim (handle_frame T for_gap granted fr x.recv x.flow c) [
          | wild ↦ none
          | handled recv flow c' fin woken ↦ some (
            on_streams (which_of cfg fr.sid) (replace (record x { recv = recv; flow = flow })) m',
            c',
            events,
          )
        ]
      ]

  -- quic_session_handle_max_stream_data_frame, and the stream that is made active.
  unfoldable pub handle_max_stream_data_frame :
      Settings → (ℕ → Stream) → MaxStreamData → StreamModule → StreamModule × List Event × Option ℕ
  unfolding send_relation_stream
  handle_max_stream_data_frame cfg make fr m =
      let (found, m', events) = send_relation_stream cfg make fr.sid m in
      elim found [
        | none ↦ (m', events, none)
        | some x ↦
            let (flow, active) = handle_max_stream_data fr.max_data x.send x.flow in
            (
              on_streams (which_of cfg fr.sid) (replace (record x { flow = flow })) m',
              events,
              (if active then some x.key else none),
            )
      ]

  unfoldable pub has_sid : ℕ → List ℕ → Bool
  has_sid k [] = false
  has_sid k (j ∷ js) = j == k || has_sid k js

  -- quic_stream_module_update_rwnd
  unfoldable pub update_rwnd : Bool → ℕ → StreamModule → StreamModule
  unfolding has_sid
  update_rwnd granted sid m =
      if has_sid sid m.rwnd_updated || not granted
      then m
      else record m { rwnd_updated = m.rwnd_updated ++ sid ∷ [] }

  -- The loop of quic_stream_module_process_rwnd over the numbers: the frames for quic_framer_ctrl.
  unfoldable pub process_from :
      Settings → (ℕ → Stream) → (ℕ → Bool) → List ℕ → StreamModule → List Frame × StreamModule
  unfolding recv_relation_stream
  process_from cfg make granted [] m = ([], m)
  process_from cfg make granted (sid ∷ sids) m =
      let (found, m', events) = recv_relation_stream cfg make sid m in
      let (frames, m'') = process_from cfg make granted sids m' in
      elim found [
        | none ↦ (frames, m'')
        | some x ↦
            if granted sid
            then (
              Frame.max_stream_data
                    (record { first_byte = 0x11; sid = x.key; max_data = x.flow.rwnd })
                  ∷ frames,
              m'',
            )
            else (frames, m'')
      ]

  -- quic_stream_module_process_rwnd
  unfoldable pub process_rwnd :
      Settings → (ℕ → Stream) → (ℕ → Bool) → StreamModule → List Frame × StreamModule
  unfolding process_from
  process_rwnd cfg make granted m =
      process_from cfg make granted m.rwnd_updated (record m { rwnd_updated = [] })

  has_destory : ℕ → List DestorySid → Bool
  has_destory k [] = false
  has_destory k (d ∷ ds) = d.key == k || has_destory k ds

  -- quic_stream_destory_push
  unfoldable pub destory_push : Bool → ℕ → ℕ → StreamModule → StreamModule
  unfolding has_destory
  destory_push granted now sid m =
      if has_destory sid m.destory_set || not granted
      then m
      else record m { destory_set = m.destory_set ++ record { key = sid; destory_time = now } ∷ [] }

  -- quic_stream_close of a stream in a set, and whether it calls quic_framer_add_active and
  -- quic_stream_flowctrl_abandon.
  unfoldable pub close_stream :
      Settings → Bool → ℕ → Stream → StreamModule → StreamModule × Bool × Bool
  close_stream cfg granted now x m =
      let (e, send, active) = Send.close x.send in
      let (recv, abandoned) = Recv.close T x.recv in
      (
        destory_push granted now x.key
            (on_streams (which_of cfg x.key) (replace (record x { send = send; recv = recv })) m),
        active,
        abandoned,
      )

  -- quic_stream_destroable
  unfoldable pub is_destroable : Stream → Bool
  is_destroable x = x.recv.is_closed && (x.recv.fin_flag && (x.send.is_closed && x.send.sent_fin))

  -- The test of quic_stream_module_loop, of a stream that was found.
  unfoldable pub is_due : Settings → ℕ → DestorySid → Stream → Bool
  unfolding is_destroable
  is_due cfg now d x =
      is_destroable x
      || (not (cfg.stream_destory_timeout == 0)
          && leb now (add64 cfg.stream_destory_timeout d.destory_time))

  -- quic_stream_module_loop over the streams that were closed. `granted` is malloc's answer for the
  -- node that has a number taken off the list.
  unfoldable pub loop_from :
      Settings
      → (ℕ → Bool)
      → ℕ
      → List DestorySid
      → StreamModule
      → List DestorySid × StreamModule × List Event
  unfolding is_due
  loop_from cfg granted now [] m = ([], m, [])
  loop_from cfg granted now (d ∷ ds) m =
      let w = which_of cfg d.key in
      let rest = loop_from cfg granted now ds in
      elim (find d.key (set_of w m).streams) [
        | none ↦ let (ds', m', es) = rest m in (d ∷ ds', m', es)
        | some x ↦
            if is_due cfg now d x
            then (let (ds', m', es) = rest (on_streams w (remove d.key) m) in
                (
                  (if granted d.key then ds' else d ∷ ds'),
                  m',
                  closed_cb d.key ∷ destoryed d.key ∷ es,
                ))
            else (let (ds', m', es) = rest m in (d ∷ ds', m', es))
      ]

  -- quic_stream_module_loop
  unfoldable pub loop : Settings → (ℕ → Bool) → ℕ → StreamModule → StreamModule × List Event
  unfolding loop_from
  loop cfg granted now m =
      let (ds, m', es) = loop_from cfg granted now m.destory_set m in
      (record m' { destory_set = ds }, es)

  -- quic_stream_module_destory: all streams and lists are freed.
  unfoldable pub destory : StreamModule → StreamModule
  destory m =
      let none_of = λ (s : StreamSet). record s { streams = [] } in
      record {
        inuni = none_of m.inuni;
        inbidi = none_of m.inbidi;
        outuni = none_of m.outuni;
        outbidi = none_of m.outbidi;
        rwnd_updated = [];
        destory_set = [];
      }

  -- quic_stream_remote_closed, quic_stream_recv_closed, quic_stream_send_closed and quic_stream_fin
  unfoldable pub remote_closed : Stream → Bool
  remote_closed x = x.recv.fin_flag

  unfoldable pub recv_closed : Stream → Bool
  recv_closed x = x.recv.is_closed

  unfoldable pub send_closed : Stream → Bool
  send_closed x = x.send.is_closed

  unfoldable pub stream_fin : Stream → Bool
  stream_fin x = x.recv.fin_flag || x.send.sent_fin
