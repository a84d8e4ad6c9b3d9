-- ===== src/Retransmission.antt =====
-- src/modules/retransmission.c and retransmission.h: the packets that were sent and are not settled
-- yet. The tree `sent_mem` is a list in the order of its keys, a frame is of any type, and the
-- congestion module is an interface. The callbacks of the frames and the session's deadlines are
-- collected in the world, in the order of the calls.
use openquic.Common.{
  ℕ, zero, suc, ◌+◌, ◌-◌, ◌*◌, ◌^◌, ◌%◌, Bool, true, false, not, ◌&&◌, ◌||◌, List, [], ◌∷◌, ◌++◌,
  Option, none, some, ltb, leb, ◌==◌, if◌then◌else◌, add64, sub64, mul64, Err, success,
  internal_error,
}
use openquic.Common.Options.{◌>>=◌}
use openquic.Frame.{Ack, AckRange}
use openquic.Retransmission.Interface.{Congestion}
pub mod Interface
pub mod Walk
pub mod Accounts
pub mod Losses
pub mod Control
pub mod Twice
mod Tests

-- `uint32_t` subtraction.
abbrev pub sub32 : ℕ → ℕ → ℕ
sub32 a b = (a + 2 ^ 32 - b) % 2 ^ 32

-- How often the loop over the ranges of an ACK frame finds the packet number in the range from
-- `start` to `end` or in one that it goes on to. It moves on after each test, and ends before
-- the range it has moved to last is tested.
unfoldable pub hits : ℕ → ℕ → ℕ → List AckRange → ℕ
hits key start end [] = if leb start key && leb key end then 1 else 0
hits key start end (r ∷ []) = if leb start key && leb key end then 1 else 0
hits key start end (r ∷ next ∷ rs) =
    let end' = sub64 (sub64 start r.gap) 2 in
    (if leb start key && leb key end then 1 else 0) + hits key (sub64 end' r.len) end' (next ∷ rs)

-- The same for a whole frame.
unfoldable pub acked_times : ℕ → Ack → ℕ
unfolding hits
acked_times key f = hits key (sub64 f.largest_ack f.first_range) f.largest_ack f.ranges

module _ (C : Congestion) (F : Type 0) where
  -- quic_sent_packet_rbt_t
  pub record SentPacket : Type 0 where
    pub key : ℕ
    pub largest_ack : ℕ
    pub sent_time : ℕ
    pub pkt_len : ℕ
    pub included_unacked : Bool
    pub frames : List F

  -- quic_retransmission_module_t
  pub record Retransmission : Type 0 where
    pub sent_mem : List SentPacket
    pub sent_pkt_count : ℕ
    pub unacked_len : ℕ
    pub max_delay : ℕ
    pub loss_time : ℕ
    pub last_sent_ack_time : ℕ
    pub largest_ack : ℕ
    pub alarm : ℕ
    pub pto_count : ℕ
    pub dropped : Bool
    pub retransmission_queue : List F

  -- The congestion module, the frames whose on_acked and on_lost were called, and the deadlines that
  -- quic_session_update_loop_deadline was called with.
  pub record World : Type 0 where
    pub congestion : C.State
    pub acked : List F
    pub lost : List F
    pub deadlines : List ℕ

  -- quic_retransmission_module_init
  unfoldable pub init : Retransmission
  init = record {
    sent_mem = [];
    sent_pkt_count = 0;
    unacked_len = 0;
    max_delay = 0;
    loss_time = 0;
    last_sent_ack_time = 0;
    largest_ack = 0;
    alarm = 0;
    pto_count = 0;
    dropped = false;
    retransmission_queue = [];
  }

  -- quic_retransmission_drop
  unfoldable pub drop : Retransmission → Retransmission
  unfolding init
  drop m = record init { pto_count = m.pto_count; dropped = true }

  -- quic_retransmission_module_destory
  unfoldable pub destory : Retransmission → Retransmission
  destory m = record m { retransmission_queue = [] }

  -- quic_retransmission_empty
  unfoldable pub is_empty : Retransmission → Bool
  is_empty m = elim m.retransmission_queue [ [] ↦ true | f ∷ fs ↦ false ]

  -- quic_retransmission_frame_insert
  unfoldable pub frame_insert : F → Retransmission → Retransmission
  frame_insert f m =
      if m.dropped then m else record m { retransmission_queue = m.retransmission_queue ++ f ∷ [] }

  -- quic_retransmission_update_alarm. The shift by `pto_count` is of less than 64 bits.
  unfoldable pub update_alarm : Retransmission → World → Retransmission × World
  update_alarm m w =
      if m.dropped
      then (m, w)
      else if m.unacked_len == 0
      then (record m { alarm = 0 }, w)
      else (let alarm =
            add64 m.last_sent_ack_time (mul64 (C.pto m.max_delay w.congestion) (2 ^ m.pto_count)) in
          (record m { alarm = alarm }, record w { deadlines = w.deadlines ++ alarm ∷ [] }))

  -- liteco_rbt_insert, in the order of the keys.
  unfoldable pub insert : SentPacket → List SentPacket → List SentPacket
  insert p [] = p ∷ []
  insert p (q ∷ qs) = let rest = insert p qs in if ltb q.key p.key then q ∷ rest else p ∷ q ∷ qs

  -- quic_retransmission_sent_mem_push
  unfoldable pub sent_mem_push : SentPacket → Retransmission → World → Retransmission × World
  unfolding insert update_alarm
  sent_mem_push p m w =
      if m.dropped
      then (m, w)
      else (let m' = record m {
        sent_mem = insert p m.sent_mem;
        sent_pkt_count = (m.sent_pkt_count + 1) % 2 ^ 32;
      } in
          if p.included_unacked
          then update_alarm
              (record m' {
                last_sent_ack_time = p.sent_time;
                unacked_len = (m'.unacked_len + p.pkt_len) % 2 ^ 32;
              })
              w
          else (m', w))

  -- A packet is settled: it is no longer counted.
  unfoldable pub discount : SentPacket → Retransmission → Retransmission
  discount p m = record m {
    sent_pkt_count = sub32 m.sent_pkt_count 1;
    unacked_len = (if p.included_unacked then sub32 m.unacked_len p.pkt_len else m.unacked_len);
  }

  -- It is told to the congestion module, and its frames are.
  unfoldable pub tell_acked : ℕ → SentPacket → Retransmission → World → World
  tell_acked recv_time p m w = record w {
    congestion =
        (if p.included_unacked
          then C.on_acked p.key p.pkt_len m.unacked_len recv_time w.congestion
          else w.congestion);
    acked = w.acked ++ p.frames;
  }

  unfoldable pub tell_lost : SentPacket → Retransmission → World → World
  tell_lost p m w = record w {
    congestion =
        (if p.included_unacked
          then C.on_lost p.key p.pkt_len m.unacked_len w.congestion
          else w.congestion);
    lost = w.lost ++ p.frames;
  }

  -- quic_retransmission_drop_packet: without memory for a node the packet stays, without its frames.
  abbrev pub stays : Bool → SentPacket → List SentPacket → List SentPacket
  stays granted p ps = if granted then ps else record p { frames = [] } ∷ ps

  -- The loop of quic_retransmission_find_newly_acked, with what stays in the tree. `none` is a
  -- packet that is found twice, and freed twice.
  unfoldable pub acked_from :
      (ℕ → Bool)
      → Ack
      → ℕ
      → List SentPacket
      → Retransmission
      → World
      → Option (List SentPacket × Retransmission × World)
  unfolding acked_times discount tell_acked
  acked_from granted f recv_time [] m w = some ([], m, w)
  acked_from granted f recv_time (p ∷ ps) m w =
      let missed = acked_from granted f recv_time ps m w in
      let found =
        acked_from granted f recv_time ps (discount p m)
          (tell_acked recv_time p (discount p m) w) in
      elim (acked_times p.key f) [
        | zero ↦ missed >>= λ r. some (p ∷ r.0, r.1, r.2)
        | suc zero ↦ found >>= λ r. some (stays (granted p.key) p r.0, r.1, r.2)
        | suc (suc n) ↦ none
      ]

  -- quic_retransmission_find_newly_acked
  unfoldable pub find_newly_acked :
      (ℕ → Bool) → Ack → ℕ → Retransmission → World → Option (Retransmission × World)
  unfolding acked_from
  find_newly_acked granted f recv_time m w =
      if m.dropped
      then some (m, w)
      else acked_from granted f recv_time m.sent_mem m w >>= λ r.
          some (record r.1 { sent_mem = r.0 }, r.2)

  -- The time after which a packet is lost.
  abbrev pub lost_delay : ℕ → ℕ
  lost_delay max_rtt =
      let delay = (if ltb 1000 (mul64 9 max_rtt) then mul64 9 max_rtt else 1000) in
      if ltb delay 500000 then 500000 else delay

  -- The other branch of the loop of quic_retransmission_find_newly_lost.
  unfoldable pub note_loss_time : ℕ → SentPacket → Retransmission → World → Retransmission × World
  unfolding update_alarm
  note_loss_time delay p m w =
      if m.loss_time == 0 || ltb (add64 p.sent_time delay) m.loss_time
      then update_alarm (record m { loss_time = add64 p.sent_time delay }) w
      else (m, w)

  -- The loop of quic_retransmission_find_newly_lost.
  unfoldable pub lost_from :
      (ℕ → Bool)
      → ℕ
      → ℕ
      → List SentPacket
      → Retransmission
      → World
      → List SentPacket × Retransmission × World
  unfolding discount tell_lost note_loss_time
  lost_from granted before delay [] m w = ([], m, w)
  lost_from granted before delay (p ∷ ps) m w =
      let late = lost_from granted before delay ps (discount p m) (tell_lost p (discount p m) w) in
      let (m1, w1) = note_loss_time delay p m w in
      let early = lost_from granted before delay ps m1 w1 in
      if ltb p.sent_time before
      then (stays (granted p.key) p late.0, late.1, late.2)
      else (p ∷ early.0, early.1, early.2)

  -- quic_retransmission_find_newly_lost
  unfoldable pub find_newly_lost : (ℕ → Bool) → ℕ → Retransmission → World → Retransmission × World
  unfolding lost_from
  find_newly_lost granted now m w =
      if m.dropped
      then (m, w)
      else (let delay = lost_delay (C.smoothed_rtt w.congestion) in
          let (ps, m', w') =
            lost_from granted (sub64 now delay) delay m.sent_mem (record m { loss_time = 0 }) w in
          (record m' { sent_mem = ps }, w'))

  -- quic_retransmission_append_frame: the first frame that fits, with its size, taken off the queue.
  unfoldable pub take_fitting : (F → ℕ) → ℕ → List F → List F × ℕ × List F
  take_fitting size capa [] = ([], 0, [])
  take_fitting size capa (f ∷ fs) =
      let (taken, len, rest) = take_fitting size capa fs in
      if ltb capa (size f) then (taken, len, f ∷ rest) else (f ∷ [], size f, fs)

  unfoldable pub append_frame : (F → ℕ) → ℕ → Retransmission → List F × ℕ × Retransmission
  unfolding take_fitting
  append_frame size capa m =
      if m.dropped
      then ([], 0, m)
      else (let (taken, len, rest) = take_fitting size capa m.retransmission_queue in
          (taken, len, record m { retransmission_queue = rest }))

  -- quic_retransmission_module_loop
  unfoldable pub loop : (ℕ → Bool) → ℕ → Retransmission → World → Retransmission × World
  unfolding find_newly_lost
  loop granted now m w =
      if m.alarm == 0 || m.dropped
      then (m, w)
      else if ltb now m.alarm
      then (m, record w { deadlines = w.deadlines ++ m.alarm ∷ [] })
      else if not (m.unacked_len == 0) && not (m.loss_time == 0)
      then find_newly_lost granted now (record m { pto_count = (m.pto_count + 1) % 2 ^ 32 }) w
      else (m, w)

  unfoldable pub find : ℕ → List SentPacket → Option SentPacket
  find k [] = none
  find k (p ∷ ps) = let rest = find k ps in if p.key == k then some p else rest

  -- The sample of the RTT that quic_session_handle_ack_frame takes; `is_app` tells whether the
  -- frame came in a short packet. The delay is never more than `max_delay`, so that this never grows.
  unfoldable pub sample : Bool → Ack → ℕ → Retransmission → World → World
  unfolding find
  sample is_app f recv_time m w = elim (find f.largest_ack m.sent_mem) [
    | none ↦ w
    | some p ↦
        let delay =
          (if is_app then (if ltb f.delay m.max_delay then f.delay else m.max_delay) else 0) in
        record w { congestion = C.update recv_time p.sent_time delay w.congestion }
  ]

  -- quic_session_handle_ack_frame, with the module for the type of the packet.
  unfoldable pub handle_ack_frame :
      (ℕ → Bool) → Bool → Ack → ℕ → ℕ → Retransmission → World → Option (Retransmission × World)
  unfolding sample find_newly_acked find_newly_lost update_alarm
  handle_ack_frame granted is_app f recv_time now m w =
      if m.dropped
      then some (m, w)
      else (let m1 = record m {
        largest_ack = (if ltb f.largest_ack m.largest_ack then m.largest_ack else f.largest_ack);
      } in
          find_newly_acked granted f recv_time m1 (sample is_app f recv_time m1 w) >>= λ r.
          (let (m2, w2) = find_newly_lost granted now r.0 r.1 in
            some (update_alarm (record m2 { pto_count = 0 }) w2)))
