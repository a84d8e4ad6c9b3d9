-- ===== src/Stream/Ending.antt =====
-- The end of a stream, and the credit, in quic_send_stream_generate of src/modules/stream.c.
use openquic.Common.{
  ℕ, ◌+◌, ◌≤◌, ◌<◌, ◌≡◌, refl, ap, ◌∙◌, inl, inr, arith, Bool, true, false, not, ◌&&◌, ◌||◌, [],
  Option, none, some, length, take, ◌==◌, Bool-cases, IsU64,
}
use openquic.Frame
use openquic.Frame.{Frame}
use openquic.Frame.Parse.{has_flag}
use openquic.Frame.Size.{stream_size}
use openquic.StreamFlowctrl.{Config, StreamFlowctrl, newly_blocked, sent, get_swnd}
use openquic.StreamFlowctrl.Credit.{Reached, InCredit, Reached-InCredit, sent_le_swnd}
use openquic.Stream.Send.{
  SendStream, header_len, blocked, should_send_fin, made, frame_of, made_empty, made_some, ends,
  payload_size, generate,
}
use openquic.Stream.Generate.{flag_fin, offered_bounds, payload_bounds, size_lem}

made_lem :
    (for_blocked : Bool) (bytes key : ℕ) (fill : Bool) (s : SendStream) (f : StreamFlowctrl)
    → s.is_closed ≡ true
    → generate for_blocked true key bytes fill s f
      ≡ made (payload_size bytes key fill s f) key fill s f
unfolding generate
made_lem for_blocked bytes key fill s f c =
    let t : payload_size bytes key fill s f == 0 && not s.is_closed ≡ false = ground arith in
    rw (t, generate)

-- A stream that was closed while data is left, and whose end was not sent, is taken off the
-- active ones after one frame, and that frame ends the stream just where data is still left
-- behind it: the end is sent too soon, or not at all.
pub generate_ends_early :
    (for_blocked : Bool) (bytes key : ℕ) (fill : Bool) (s : SendStream) (f : StreamFlowctrl)
    → s.is_closed ≡ true
    → s.sent_fin ≡ false
    → 0 < length s.reader
    → let r = generate for_blocked true key bytes fill s f in
      (fr : Frame.Stream) × (r.frame ≡ some fr)
      × (has_flag 0x09 fr.first_byte ≡ not (length r.send.reader == 0))
      × (r.empty ≡ true)
unfolding made made_some
generate_ends_early for_blocked bytes key fill s f c u h =
    let n : ℕ = payload_size bytes key fill s f in
    let t : length s.reader == 0 ≡ false = ground arith in
    let e : generate for_blocked true key bytes fill s f ≡ made_some n key fill s f =
      made_lem for_blocked bytes key fill s f c ∙ rw (t, made) in
    rw e (
      frame_of n key fill (ends n s) (take n s.reader) s,
      refl,
      flag_fin (not (s.off == 0)) (not fill) (ends n s) ∙ rw (c, u) (and_true _),
      rw (c, u) (or_not _),
    )
  where
    and_true : (b : Bool) → b && true ≡ b
    and_true true = refl
    and_true false = refl

    or_not : (b : Bool) → b || (not b && true) ≡ true
    or_not true = refl
    or_not false = refl

-- For a closed stream with nothing to send a frame is made however small the room is: where its
-- header does not fit, the frame is larger than the room.
pub generate_too_large :
    (for_blocked : Bool) (bytes key : ℕ) (fill : Bool) (s : SendStream) (f : StreamFlowctrl)
    → s.is_closed ≡ true
    → s.reader ≡ []
    → bytes < header_len key s.off fill 0
    → (fr : Frame.Stream) × ((generate for_blocked true key bytes fill s f).frame ≡ some fr)
      × (bytes < stream_size fr)
unfolding made made_empty
generate_too_large for_blocked bytes key fill s f c e0 h =
    let n : ℕ = payload_size bytes key fill s f in
    let l : length s.reader ≡ 0 = rw e0 in
    let t : length s.reader == 0 ≡ true = rw l in
    let (a, b) = payload_bounds bytes key fill s f in
    let (x, y) = offered_bounds s f in
    let z : n ≡ 0 = omega arith in
    let e : generate for_blocked true key bytes fill s f ≡ made_empty n key fill s f =
      made_lem for_blocked bytes key fill s f c ∙ rw (t, made) in
    (
      frame_of n key fill (should_send_fin s) [] s,
      ap (λ r. r.frame) e,
      rw z (omega (arith, size_lem key s.off 0 fill (should_send_fin s) [])),
    )

-- What is sent keeps to the states that are reached.
keeps_Reached :
    (cfg : Config) (for_blocked for_frame : Bool) (bytes key : ℕ) (fill : Bool) (s : SendStream)
    (f : StreamFlowctrl)
    → Reached cfg f
    → Reached cfg (generate for_blocked for_frame key bytes fill s f).flow
unfolding generate made made_empty made_some blocked
keeps_Reached cfg for_blocked for_frame bytes key fill s f r =
    elim (Bool-cases (payload_size bytes key fill s f == 0 && not s.is_closed)) [
      | inl idle ↦ rw (idle, generate) (blocked-Reached (newly_blocked f).0 refl)
      | inr busy ↦ elim (Bool-cases for_frame) [
        | inl given ↦ elim (Bool-cases (length s.reader == 0)) [
          | inl nothing ↦ rw (busy, given, nothing, generate, made) r
          | inr something ↦
              let (a, b) = payload_bounds bytes key fill s f in
              let (c, d) = offered_bounds s f in
              rw (busy, given, something, generate, made)
                (Reached.sends (payload_size bytes key fill s f) (omega arith) r)
        ]
        | inr refused ↦ rw (busy, refused, generate) r
      ]
    ]
  where
    blocked-Reached :
        (o : Option ℕ) → (newly_blocked f).0 ≡ o → Reached cfg (blocked for_blocked key s f).flow
    blocked-Reached none e = rw (e, blocked) (Reached.blocked r)
    blocked-Reached (some m) e = rw (e, blocked) (Reached.blocked r)

-- The bytes of data in what is sent.
abbrev pub carried : Option Frame.Stream → ℕ
carried none = 0
carried (some fr) = fr.len

-- A stream that is found blocked has sent as much as before.
blocked_same : (f : StreamFlowctrl) → (newly_blocked f).1.sent_bytes ≡ f.sent_bytes
unfolding newly_blocked
blocked_same f = ground arith

blocked_counts :
    (granted : Bool) (key : ℕ) (s : SendStream) (f : StreamFlowctrl)
    → let r = blocked granted key s f in r.flow.sent_bytes ≡ f.sent_bytes + carried r.frame
unfolding blocked
blocked_counts granted key s f = go (newly_blocked f).0 refl
  where
    go :
        (o : Option ℕ)
        → (newly_blocked f).0 ≡ o
        → let r = blocked granted key s f in r.flow.sent_bytes ≡ f.sent_bytes + carried r.frame
    go none e = rw (e, blocked) (omega (arith, blocked_same f))
    go (some m) e = rw (e, blocked) (omega (arith, blocked_same f))

-- What is sent is counted.
counts_carried :
    (for_blocked for_frame : Bool) (bytes key : ℕ) (fill : Bool) (s : SendStream)
    (f : StreamFlowctrl)
    → InCredit f
    → let r = generate for_blocked for_frame key bytes fill s f in
      r.flow.sent_bytes ≡ f.sent_bytes + carried r.frame
unfolding generate made made_empty made_some sent get_swnd
counts_carried for_blocked for_frame bytes key fill s f u =
    let (a, b) = payload_bounds bytes key fill s f in
    let (c, d) = offered_bounds s f in
    elim (Bool-cases (payload_size bytes key fill s f == 0 && not s.is_closed)) [
      | inl idle ↦ rw (idle, generate) (blocked_counts for_blocked key s f)
      | inr busy ↦ elim (Bool-cases for_frame) [
        | inl given ↦ elim (Bool-cases (length s.reader == 0)) [
          | inl nothing ↦ rw (busy, given, nothing, generate, made) (ground arith)
          | inr something ↦
              rw (busy, given, something, generate, made) (ground (arith, u.within, u.word))
        ]
        | inr refused ↦ rw (busy, refused, generate) (omega arith)
      ]
    ]

-- Where the credit that a stream starts with has 64 bits, from a state of the credit that the
-- stream reaches from its start, by sending within its credit, credit that the peer grants, data
-- that arrives or is read, and being found blocked, whatever quic_send_stream_generate sends
-- leads to such a state again; just the bytes of the frame that it makes, if any, are counted as
-- sent, and no more than the peer granted.
pub generate-Reached :
    (cfg : Config) (for_blocked for_frame : Bool) (bytes key : ℕ) (fill : Bool) (s : SendStream)
    (f : StreamFlowctrl)
    → IsU64 cfg.stream_initial_swnd
    → Reached cfg f
    → let r = generate for_blocked for_frame key bytes fill s f in
      Reached cfg r.flow
      × (r.flow.sent_bytes ≤ r.flow.swnd)
      × (r.flow.sent_bytes ≡ f.sent_bytes + carried r.frame)
generate-Reached cfg for_blocked for_frame bytes key fill s f w u =
    let v : Reached cfg (generate for_blocked for_frame key bytes fill s f).flow =
      keeps_Reached cfg for_blocked for_frame bytes key fill s f u in
    (
      v,
      sent_le_swnd cfg _ w v,
      counts_carried for_blocked for_frame bytes key fill s f (Reached-InCredit w u),
    )
