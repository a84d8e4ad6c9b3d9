-- ===== src/Framer/Turns.antt =====
-- The active streams send in turn.
use openquic.Common.{
  ℕ, ◌≤◌, ◌≡◌, refl, sym, ap, ◌∙◌, arith, Bool, true, false, Bool-cases, inl, inr, ◌⊎◌, List, [],
  ◌∷◌, ◌++◌, Option, none, some, length, ◌==◌,
}
use openquic.Frame
use openquic.Frame.{Frame}
use openquic.Frame.Dispatch.{frame_size}
use openquic.Frame.Size.{stream_size}
use openquic.Sorter.Rbt.{Tree}
use openquic.Stream.Send.{Generated, generate}
use openquic.Stream.Sets.{
  Settings, Event, Stream, StreamModule, on_streams, replace, which_of, send_relation_stream,
}
use openquic.Framer.{
  Framer, has, remove, also_ctrl, Appended, appended, wild, append_of, append_next, add_active,
  append_stream_frame,
}
use openquic.Framer.Active.{count, IsActive, count-append, count-remove}
use openquic.Framer.Sizes.{codec-generate, stream-frame_size}

none_in : (k : ℕ) (xs : List ℕ) → length xs == 0 ≡ true → count k xs ≡ 0
none_in k [] e = refl
none_in k (x ∷ xs) e = ground arith

some_in : (xs : List ℕ) → length xs == 0 ≡ false → (k : ℕ) × (1 ≤ count k xs)
some_in [] e = cc
some_in (x ∷ xs) e = (x, ground arith)

no_queue :
    (m : Framer)
    → IsActive m
    → length m.active_set == 0 ≡ true
    → (sid : ℕ) (queue : List ℕ) → m.active_queue ≡ sid ∷ queue
    → ⊥
no_queue m h z sid queue e =
    let (a, b) = h sid in
    let p : count sid m.active_queue ≡ count sid (sid ∷ queue) = ap (count sid) e in
    ground (arith, a, p, none_in sid m.active_set z)

requeued :
    (m m' : Framer) (sid : ℕ) (queue : List ℕ)
    → IsActive m
    → m.active_queue ≡ sid ∷ queue
    → m'.active_queue ≡ queue ++ sid ∷ []
    → m'.active_set ≡ m.active_set
    → IsActive m'
requeued m m' sid queue h e e' s k =
    let (a, b) = h k in
    let p : count k m.active_queue ≡ count k (sid ∷ queue) = ap (count k) e in
    let q : count k m'.active_queue ≡ count k (queue ++ sid ∷ []) = ap (count k) e' in
    let t : count k m'.active_set ≡ count k m.active_set = ap (count k) s in
    let u = count-append k queue (sid ∷ []) in (omega (arith, a, p, q, t, u), omega (arith, b, t))

left_out :
    (m m' : Framer) (sid : ℕ) (queue : List ℕ)
    → IsActive m
    → m.active_queue ≡ sid ∷ queue
    → m'.active_queue ≡ queue
    → m'.active_set ≡ remove sid m.active_set
    → IsActive m' × (count sid m'.active_set ≡ 0)
left_out m m' sid queue h e e' s = (
  λ k.
      let (a, b) = h k in
      let p : count k m.active_queue ≡ count k (sid ∷ queue) = ap (count k) e in
      let q : count k m'.active_queue ≡ count k queue = ap (count k) e' in
      let t : count k m'.active_set ≡ count k (remove sid m.active_set) = ap (count k) s in
      let u = count-remove sid k m.active_set there in
      (omega (arith, a, p, q, t, u), omega (arith, b, t, u)),
  (let (a, b) = h sid in
      let t : count sid m'.active_set ≡ count sid (remove sid m.active_set) = ap (count sid) s in
      let u = count-remove sid sid m.active_set there in ground (arith, b, t, u)),
)
  where
    there : 1 ≤ count sid m.active_set
    there =
        let (a, b) = h sid in
        let p : count sid m.active_queue ≡ count sid (sid ∷ queue) = ap (count sid) e in
        ground (arith, a, p)

-- One call: the packet gets nothing, or a STREAM frame whose size is returned; the stream at the head
-- of the queue goes to its end, or leaves the active ones; the others keep their order.
pub record Turn {T : Tree} (frames : List Frame) (m : Framer) (r : Appended T) : Type 0 where
  pub len : ℕ
  pub packet : List Frame
  pub after : Framer
  pub streams : StreamModule T
  pub events : List Event
  pub result : r ≡ appended len packet after streams events
  pub active : IsActive after
  pub frame :
      ((len ≡ 0) × (packet ≡ frames))
      ⊎ ((fr : Frame.Stream) × (packet ≡ frames ++ Frame.stream fr ∷ []) × (len ≡ stream_size fr))
  pub order :
      (sid : ℕ) (queue : List ℕ)
      → m.active_queue ≡ sid ∷ queue
      → (after.active_queue ≡ queue ++ sid ∷ [])
        ⊎ ((after.active_queue ≡ queue) × (count sid after.active_set ≡ 0))

also_set : (o : Option Frame) (m : Framer) → (also_ctrl o m).active_set ≡ m.active_set
also_set none m = refl
also_set (some f) m = refl

head_lem :
    (m : Framer) (sid sid' : ℕ) (queue queue' : List ℕ)
    → m.active_queue ≡ sid ∷ queue
    → m.active_queue ≡ sid' ∷ queue'
    → (sid ≡ sid') × (queue ≡ queue')
head_lem m sid sid' queue queue' e e' = (cc, cc)

module _ {T : Tree} (cfg : Settings) (make : ℕ → Stream T) (for_blocked for_frame : Bool) (capa : ℕ)
    (fill : Bool) where
  module _ (sid : ℕ) (queue : List ℕ) (x : Stream T) (frames : List Frame) (m : Framer)
      (sm : StreamModule T) (events : List Event) (h : IsActive m)
      (e : m.active_queue ≡ sid ∷ queue) where
    abbrev g : Generated
    g = generate for_blocked for_frame x.key capa fill x.send x.flow

    abbrev again : Framer
    again = record (also_ctrl g.ctrl m) { active_queue = queue ++ sid ∷ [] }

    abbrev gone : Framer
    gone = record (also_ctrl g.ctrl m) {
      active_queue = queue;
      active_set = remove sid (also_ctrl g.ctrl m).active_set;
    }

    abbrev left : StreamModule T
    left =
        on_streams T (which_of T cfg sid) (replace T (record x { send = g.send; flow = g.flow })) sm

    again_lem : IsActive again
    again_lem = requeued m again sid queue h e refl (also_set g.ctrl m)

    gone_lem : IsActive gone × (count sid gone.active_set ≡ 0)
    gone_lem = left_out m gone sid queue h e refl (ap (remove sid) (also_set g.ctrl m))

    append_of-go :
        (o : Option Frame.Stream)
        → g.frame ≡ o
        → Turn frames m
            (append_of T cfg make for_blocked for_frame capa fill sid queue x frames m sm events)
    unfolding append_of
    append_of-go none d = record {
      len = 0;
      packet = frames;
      after = again;
      streams = left;
      events = events;
      result = rw (d, append_of);
      active = again_lem;
      frame = inl (refl, refl);
      order = λ sid' queue' e'.
          let (p, q) = head_lem m sid sid' queue queue' e e' in
          inl (ap (λ z. queue ++ z ∷ []) p ∙ ap (λ z. z ++ sid' ∷ []) q);
    }
    append_of-go (some fr) d =
        let c : frame_size (Frame.stream fr) ≡ some (stream_size fr) =
          stream-frame_size fr
            (codec-generate for_blocked for_frame capa x.key fill x.send x.flow fr d) in
        elim (Bool-cases g.empty) [
          | inl empty ↦ record {
            len = stream_size fr;
            packet = frames ++ Frame.stream fr ∷ [];
            after = gone;
            streams = left;
            events = events;
            result = rw (d, append_of, c, empty);
            active = gone_lem.0;
            frame = inr (fr, refl, refl);
            order = λ sid' queue' e'.
                let (p, q) = head_lem m sid sid' queue queue' e e' in
                inr (q, ap (λ z. count z gone.active_set) (sym p) ∙ gone_lem.1);
          }
          | inr more ↦ record {
            len = stream_size fr;
            packet = frames ++ Frame.stream fr ∷ [];
            after = again;
            streams = left;
            events = events;
            result = rw (d, append_of, c, more);
            active = again_lem;
            frame = inr (fr, refl, refl);
            order = λ sid' queue' e'.
                let (p, q) = head_lem m sid sid' queue queue' e e' in
                inl (ap (λ z. queue ++ z ∷ []) p ∙ ap (λ z. z ++ sid' ∷ []) q);
          }
        ]

  append_next-Turn :
      (queue : List ℕ) (frames : List Frame) (m : Framer) (sm : StreamModule T)
      → IsActive m
      → length m.active_set == 0 ≡ false
      → m.active_queue ≡ queue
      → Turn frames m (append_next T cfg make for_blocked for_frame capa fill queue frames m sm)
  unfolding append_next
  append_next-Turn [] frames m sm h z e =
      let (k, l) = some_in m.active_set z in
      let (a, b) = h k in
      let p : count k m.active_queue ≡ 0 = ap (count k) e in absurd (omega (arith, a, l, p))
  append_next-Turn (sid ∷ queue) frames m sm h z e =
      go (send_relation_stream T cfg make sid sm).0 refl
    where
      go :
          (o : Option (Stream T))
          → (send_relation_stream T cfg make sid sm).0 ≡ o
          → Turn frames m
              (append_next T cfg make for_blocked for_frame capa fill (sid ∷ queue) frames m sm)
      go none d =
          let m' : Framer = record m {
            active_queue = queue;
            active_set = remove sid m.active_set;
          } in
          let (u, v) = left_out m m' sid queue h e refl refl in
          record {
            len = 0;
            packet = frames;
            after = m';
            streams = (send_relation_stream T cfg make sid sm).1;
            events = (send_relation_stream T cfg make sid sm).2;
            result = rw (d, append_next);
            active = u;
            frame = inl (refl, refl);
            order = λ sid' queue' e'.
                let (p, q) = head_lem m sid sid' queue queue' e e' in
                inr (q, ap (λ k. count k (remove sid m.active_set)) (sym p) ∙ v);
          }
      go (some x) d =
          rw (d, append_next)
            (append_of-go sid queue x frames m (send_relation_stream T cfg make sid sm).1
              (send_relation_stream T cfg make sid sm).2 h e
              (generate for_blocked for_frame x.key capa fill x.send x.flow).frame refl)

  -- From a state in which the queue has just the active streams, each once,
  -- quic_framer_append_stream_frame never reads the head of the queue as a stream, nor a size out
  -- of another struct, and leaves such a state: the packet gets nothing, or a STREAM frame whose
  -- size is returned, and the stream whose turn it is goes to the end of the queue or leaves the
  -- active ones, while the others keep their order.
  pub append_stream_frame-Turn :
      (frames : List Frame) (m : Framer) (sm : StreamModule T)
      → IsActive m
      → Turn frames m (append_stream_frame T cfg make for_blocked for_frame capa fill frames m sm)
  unfolding append_stream_frame
  append_stream_frame-Turn frames m sm h = elim (Bool-cases (length m.active_set == 0)) [
    | inl nothing ↦ record {
      len = 0;
      packet = frames;
      after = m;
      streams = sm;
      events = [];
      result = rw (nothing, append_stream_frame);
      active = h;
      frame = inl (refl, refl);
      order = λ sid queue e. absurd (no_queue m h nothing sid queue e);
    }
    | inr some_active ↦
        rw (some_active, append_stream_frame)
          (append_next-Turn m.active_queue frames m sm h some_active refl)
  ]

  -- Where no stream is active, and memory for the node of the set is granted and for that of the queue
  -- is not, the stream is in the set alone: the next call reads the head of the queue as a stream.
  pub add_active_lost :
      (sid : ℕ) (frames : List Frame) (m : Framer) (sm : StreamModule T)
      → m.active_queue ≡ []
      → has sid m.active_set ≡ false
      → append_stream_frame T cfg make for_blocked for_frame capa fill frames
          (add_active true false sid m).1
          sm
        ≡ wild
  unfolding append_stream_frame add_active append_next
  add_active_lost sid frames m sm e new =
      let t : length (sid ∷ m.active_set) == 0 ≡ false = ground arith in rw (new, e, t)
