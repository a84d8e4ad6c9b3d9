-- ===== src/Recver.antt =====
-- src/modules/recver.c: a packet is opened, its header read, and its frames handed to the session.
-- Opening a packet, which is calls of BoringSSL, and the handlers that conf/frame.conf names for the
-- frames are parameters; a handler also takes the type and the time of the packet, which the code
-- stores in ACK and CRYPTO frames.
use openquic.Common.{
  ℕ, zero, suc, Bool, true, false, not, ◌&&◌, ◌||◌, List, [], ◌∷◌, Option, none, some, length, take,
  ltb, ◌==◌, if◌then◌else◌, Err, success, not_implemented,
}
use openquic.Frame.{Frame}
use openquic.Frame.Dispatch.{first_byte_of, frame_parse}
use openquic.Frame.Wire.{Parser, Result, ok, err, over_read, fault}
use openquic.AckGenerator.{AckGenerator, received}
use openquic.Header.{
  is_long, packet_type, LongHeader, long_header, Payload, initial_header, handshake_header,
  zero_rtt_header, short_header,
}
use openquic.Stream.Recv.{is_success}
pub mod Headers
pub mod Frames
mod Tests

abbrev pub Handler : Type 0 → Type 0
Handler S = ℕ → ℕ → Frame → S → Err × S

-- What the loop over the frames comes to: whether an ACK is wanted, `curr_ack_eliciting` and the
-- session; an error of the parser or of a handler; an access out of bounds; or the fuel runs out.
pub data Handled (S : Type 0) : Type 0 where
  finished : Bool → Bool → S → Handled S
  refused : Err → Bool → S → Handled S
  wild : Handled S
  spinning : Handled S

abbrev pub is_ack : Frame → Bool
is_ack f = first_byte_of f == 0x02 || first_byte_of f == 0x03

-- The test at the end of a round, which no frame but one of the type 0x03 passes.
abbrev pub is_eliciting : Frame → Bool
is_eliciting f = not (first_byte_of f == 0x02) && first_byte_of f == 0x03

-- The header as quic_recver_handle_packet reads it. Of another type of long header nothing is stored
-- in `payload`, which is then read.
unfoldable pub read_header : ℕ → Parser Payload
read_header src_len [] = fault
read_header src_len (first ∷ bs) =
    if is_long first
    then (if packet_type first == 0xc0
        then initial_header (first ∷ bs)
        else if packet_type first == 0xe0
        then handshake_header (first ∷ bs)
        else if packet_type first == 0xd0
        then zero_rtt_header (first ∷ bs)
        else if packet_type first == 0xf0
        then err not_implemented
        else fault)
    else short_header src_len (first ∷ bs)

module _ {S : Type 0} (handler : ℕ → Option (Handler S)) (granted : ℕ → Bool) (kind time : ℕ) where
  -- The loop of quic_recver_process_packet_payload, on fuel. `granted` is malloc's answer by the
  -- number of bytes that are left.
  unfoldable pub frames_from : ℕ → List ℕ → Bool → Bool → S → Handled S
  frames_from n [] ack eliciting s = finished ack eliciting s
  frames_from zero (b ∷ bs) ack eliciting s = spinning
  frames_from (suc n) (b ∷ bs) ack eliciting s =
      elim (frame_parse (granted (length (b ∷ bs))) (b ∷ bs)) [
        | err e ↦ refused e eliciting s
        | over_read ↦ wild
        | fault ↦ wild
        | ok (f, rest) ↦ elim (handler (first_byte_of f)) [
          | none ↦ frames_from n rest (ack || not (is_ack f)) eliciting s
          | some h ↦
              let (e, s') = h kind time f s in
              elim (is_success e) [
                | true ↦ frames_from n rest (ack || not (is_ack f)) (eliciting || is_eliciting f) s'
                | false ↦ refused e eliciting s'
              ]
        ]
      ]

  -- quic_recver_process_packet_payload, without quic_ack_generator_module_received at its end. Each
  -- frame takes one byte at least.
  unfoldable pub process_frames : List ℕ → S → Handled S
  unfolding frames_from
  process_frames bs s = frames_from (length bs) bs false false s

-- What the receiver keeps, with the session: the identifier of the peer, the three generators of ACK
-- frames, and the state S of all other modules.
pub record Session (S : Type 0) : Type 0 where
  pub curr_ack_eliciting : Bool
  pub recv_first : Bool
  pub last_recv_time : ℕ
  pub dst : List ℕ
  pub initial : AckGenerator
  pub handshake : AckGenerator
  pub app : AckGenerator
  pub rest : S

-- A packet is handled, with a code that is not looked at further, or memory is misused.
pub data Outcome (S : Type 0) : Type 0 where
  returned : Err → Session S → Outcome S
  undefined : Outcome S
  endless : Outcome S

module _ {S : Type 0} where
  -- quic_ack_generator_module_received, of the generator for the type of a packet.
  unfoldable pub acknowledge : Bool → ℕ → ℕ → ℕ → Bool → Session S → Outcome S
  acknowledge granted kind num time ack s =
      if kind == 0xc0
      then elim (received granted num time ack s.initial) [
        | none ↦ undefined
        | some m ↦ returned success (record s { initial = m })
      ]
      else if kind == 0xe0
      then elim (received granted num time ack s.handshake) [
        | none ↦ undefined
        | some m ↦ returned success (record s { handshake = m })
      ]
      else if kind == 0x40
      then elim (received granted num time ack s.app) [
        | none ↦ undefined
        | some m ↦ returned success (record s { app = m })
      ]
      else returned success s

  -- The first packet that a client receives tells the identifier of the server.
  unfoldable pub learn_dst : Bool → List ℕ → Session S → Option (Session S)
  learn_dst is_cli [] s = none
  learn_dst is_cli (first ∷ bs) s =
      if is_cli && (not s.recv_first && is_long first)
      then elim (long_header (first ∷ bs)) [
        | ok (h, rest) ↦ some (record s { dst = h.src })
        | err e ↦ none
        | over_read ↦ none
        | fault ↦ none
      ]
      else some s

  -- quic_recver_process_packet. A payload that reaches behind the packet counts as misuse.
  unfoldable pub process_packet :
      (ℕ → Option (Handler S)) → (ℕ → Bool) → Bool → ℕ → Payload → List ℕ → Session S → Outcome S
  unfolding process_frames acknowledge
  process_packet handler granted for_range time p bs s =
      if ltb (length bs) p.payload_len
      then undefined
      else elim (process_frames handler granted p.packet_type time (take p.payload_len bs) s.rest) [
        | finished ack eliciting t ↦
            acknowledge for_range p.packet_type p.p_num time ack
              (record s { curr_ack_eliciting = eliciting; rest = t })
        | refused e eliciting t ↦ returned e (record s { curr_ack_eliciting = eliciting; rest = t })
        | wild ↦ undefined
        | spinning ↦ endless
      ]

  -- quic_recver_handle_packet. `opened` is what quic_sealer_open returns, and the bytes it leaves.
  unfoldable pub handle_packet :
      (ℕ → Option (Handler S))
      → (ℕ → Bool)
      → Bool
      → Bool
      → ℕ
      → Err × List ℕ
      → ℕ
      → Session S
      → Outcome S
  unfolding learn_dst read_header process_packet
  handle_packet handler granted for_range is_cli src_len (e, bs) time s = elim (is_success e) [
    | false ↦ returned e s
    | true ↦ elim (learn_dst is_cli bs s) [
      | none ↦ undefined
      | some s' ↦
          let s1 = record s' { recv_first = true; last_recv_time = time } in
          elim (read_header src_len bs) [
            | err c ↦ returned c s1
            | over_read ↦ undefined
            | fault ↦ undefined
            | ok (p, rest) ↦
                let p' =
                  (if p.packet_type == 0x40 then record p { payload_len = length rest } else p) in
                elim (process_packet handler granted for_range time p' rest s1) [
                  | returned c s2 ↦ returned success s2
                  | undefined ↦ undefined
                  | endless ↦ endless
                ]
          ]
    ]
  ]
