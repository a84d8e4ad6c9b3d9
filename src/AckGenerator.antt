-- ===== src/AckGenerator.antt =====
-- src/modules/ack_generator.c and ack_generator.h: which packets were received, and the ACK frame
-- that says so. The list of ranges is a list, in the order of the links.
use openquic.Common.{
  ℕ, zero, suc, ◌+◌, ◌-◌, ◌^◌, ◌%◌, Bool, true, false, ◌&&◌, ◌||◌, not, List, [], ◌∷◌, ◌++◌, Option,
  none, some, length, ltb, leb, ◌==◌, if◌then◌else◌, add64, sub64,
}
use mathlib.Core.List.{reverse}
use openquic.Frame.{Frame, Ack, AckRange, Ect}
use openquic.Frame.Dispatch.{frame_size}
pub mod Ranges
pub mod Extend
pub mod Insert
mod Tests
pub mod Receive
pub mod Ignore
pub mod Generate
pub mod Wire
pub mod Unset

-- quic_ack_generator_range_t
pub record Range : Type 0 where
  pub start : ℕ
  pub end : ℕ

-- quic_ack_generator_module_t
pub record AckGenerator : Type 0 where
  pub ranges : List Range
  pub ranges_count : ℕ
  pub ignore_threhold : ℕ
  pub lg_obtime : ℕ
  pub lg_obnum : ℕ
  pub should_send : Bool
  pub is_sent : Bool
  pub dropped : Bool
  pub alarm : ℕ

-- What insert_ranges does: return false, return true with new ranges and their count, or go on to
-- read the links of a range that it has freed.
pub data Inserted : Type 0 where
  unchanged : Inserted
  changed : List Range → ℕ → Inserted
  dangling : Inserted

-- `uint32_t` steps of `ranges_count`.
abbrev pub inc32 : ℕ → ℕ
inc32 n = (n + 1) % 2 ^ 32

abbrev pub dec32 : ℕ → ℕ
dec32 n = (n + 2 ^ 32 - 1) % 2 ^ 32

abbrev pub behind : Range → Inserted → Inserted
behind r unchanged = unchanged
behind r (changed rs n) = changed (r ∷ rs) n
behind r dangling = dangling

-- The test of the range that follows an extended one.
unfoldable pub merge_next : Range → List Range → ℕ → Inserted
merge_next r [] count = changed (r ∷ []) count
merge_next r (next ∷ rs) count =
    if sub64 next.start 1 == r.end
    then changed (record next { start = r.start } ∷ rs) (dec32 count)
    else changed (r ∷ next ∷ rs) count

-- The same for the range before it, which comes first; `none` is the head of the list.
unfoldable pub merge : Option Range → Range → List Range → ℕ → Inserted
unfolding merge_next
merge none r rs count = merge_next r rs count
merge (some prev) r rs count =
    if add64 prev.end 1 == r.start then dangling else merge_next r rs count

-- The loop of quic_ack_generator_insert_ranges, behind the range `prev`.
unfoldable pub insert_from : Bool → Option Range → ℕ → ℕ → List Range → Inserted
unfolding merge
insert_from granted prev num count [] =
    if granted then changed (record { start = num; end = num } ∷ []) (inc32 count) else unchanged
insert_from granted prev num count (r ∷ rs) =
    if leb r.start num && leb num r.end
    then unchanged
    else if add64 r.end 1 == num
    then merge prev (record r { end = add64 r.end 1 }) rs count
    else if sub64 r.start 1 == num
    then merge prev (record r { start = sub64 r.start 1 }) rs count
    else if ltb num r.start
    then (if granted
        then changed (record { start = num; end = num } ∷ r ∷ rs) (inc32 count)
        else unchanged)
    else behind r (insert_from granted (some r) num count rs)

-- quic_ack_generator_insert_ranges; `none` is undefined behaviour.
unfoldable pub insert_ranges : Bool → ℕ → AckGenerator → Option (Bool × AckGenerator)
unfolding insert_from
insert_ranges granted num m = elim (insert_from granted none num m.ranges_count m.ranges) [
  | unchanged ↦ some (false, m)
  | changed rs n ↦ some (true, record m { ranges = rs; ranges_count = n })
  | dangling ↦ none
]

-- The loop of quic_ack_generator_ignore.
unfoldable pub ignore_from : ℕ → List Range → List Range
ignore_from t [] = []
ignore_from t (r ∷ rs) =
    if leb t r.start
    then r ∷ rs
    else if ltb r.end t
    then ignore_from t rs
    else record r { start = t } ∷ rs

-- quic_ack_generator_ignore
unfoldable pub ignore : AckGenerator → AckGenerator
unfolding ignore_from
ignore m = record m { ranges = ignore_from m.ignore_threhold m.ranges }

-- quic_ack_generator_set_ignore_threhold
unfoldable pub set_ignore_threhold : ℕ → AckGenerator → AckGenerator
unfolding ignore
set_ignore_threhold num m =
    if leb num m.ignore_threhold then m else ignore (record m { ignore_threhold = num })

-- The loop of quic_ack_generator_check_is_lost.
unfoldable pub lost_from : ℕ → List Range → Bool
lost_from num [] = false
lost_from num (r ∷ rs) =
    if ltb num r.start
    then true
    else if leb r.start num && leb num r.end
    then false
    else lost_from num rs

unfoldable pub last_start : Range → List Range → ℕ
last_start r [] = r.start
last_start r (next ∷ rs) = last_start next rs

-- quic_ack_generator_check_is_lost. Of an empty list it reads the head as a range, but whatever it
-- finds there, it returns false.
unfoldable pub is_lost : ℕ → ℕ → List Range → Bool
unfolding lost_from last_start
is_lost num t [] = false
is_lost num t (r ∷ rs) =
    if leb num t || leb (last_start r rs) num then false else lost_from num (r ∷ rs)

unfoldable pub check_is_lost : ℕ → AckGenerator → Bool
unfolding is_lost
check_is_lost num m = is_lost num m.ignore_threhold m.ranges

-- The last part of quic_ack_generator_module_received: the two tests that set `should_send`.
abbrev pub note_send : Bool → Bool → Bool × AckGenerator → AckGenerator
note_send lost should_ack (inserted, m) = record m {
  should_send = m.should_send || (inserted && should_ack) || (lost && should_ack);
}

-- quic_ack_generator_module_received
unfoldable pub received : Bool → ℕ → ℕ → Bool → AckGenerator → Option AckGenerator
unfolding check_is_lost insert_ranges
received granted num recv_time should_ack m =
    if ltb num m.ignore_threhold || m.dropped
    then some m
    else (let lost = check_is_lost num m in
        let m' =
          (if leb m.lg_obnum num then record m { lg_obnum = num; lg_obtime = recv_time } else m) in
        elim (insert_ranges granted num m') [
          | some r ↦ some (note_send lost should_ack r)
          | none ↦ none
        ])

-- The loop of quic_ack_generator_generate from the second range from the back on; `smallest` is
-- the start of the range before.
unfoldable pub gaps_below : ℕ → List Range → List AckRange
gaps_below smallest [] = []
gaps_below smallest (r ∷ rs) =
    record { gap = sub64 (sub64 smallest r.end) 2; len = sub64 r.end r.start }
    ∷ gaps_below r.start rs

-- What quic_ack_generator_generate returns: NULL, a frame, or a frame with fields or ranges that
-- were never set (or set outside of its memory).
pub data Generated : Type 0 where
  nothing : Generated
  frame : Ack → Generated
  unset : Generated

-- The frame of the ranges from the last one back, where `ranges_count` is `count`.
unfoldable pub frame_of : ℕ → ℕ → List Range → Generated
unfolding gaps_below
frame_of count delay [] = unset
frame_of count delay (r ∷ rs) =
    if dec32 count == length rs
    then frame (record {
      first_byte = 0x02;
      largest_ack = r.end;
      delay = delay;
      first_range = sub64 r.end r.start;
      ect = some (record { ect0 = 0; ect1 = 0; ect_ce = 0 });
      ranges = gaps_below r.start rs;
    })
    else unset

-- quic_ack_generator_generate at the time `now`.
unfoldable pub generate : Bool → ℕ → AckGenerator → Generated × AckGenerator
unfolding frame_of
generate granted now m =
    if m.dropped
    then (nothing, m)
    else if not m.should_send && (m.alarm == 0 || ltb now m.alarm)
    then (nothing, m)
    else if not granted
    then (nothing, m)
    else (
      frame_of m.ranges_count (sub64 now m.lg_obtime) (reverse m.ranges),
      record m { alarm = 0; should_send = false },
    )

-- quic_ack_generator_drop
unfoldable pub drop : AckGenerator → AckGenerator
drop m = record m { ranges = []; ranges_count = 0; dropped = true }

-- quic_ack_generator_init
abbrev pub init : AckGenerator
init = record {
  ranges = [];
  ranges_count = 0;
  ignore_threhold = 0;
  lg_obtime = 0;
  lg_obnum = 0;
  should_send = false;
  is_sent = false;
  dropped = false;
  alarm = 0;
}

-- quic_ack_generator_should_send
unfoldable pub should_send : AckGenerator → Bool
should_send m = if m.dropped then false else m.should_send

-- quic_ack_generator_contains_lost; of an empty list `head` is what the list's head reads as.
unfoldable pub contains_lost : ℕ → AckGenerator → Bool
contains_lost head m =
    if m.dropped
    then false
    else ltb 1 m.ranges_count
      || ltb m.ignore_threhold (elim m.ranges [ [] ↦ head | r ∷ rs ↦ r.start ])

-- quic_ack_generator_append_ack_frame: the frames that are appended, and their size. `none` is a
-- frame that was never set, or whose size is not told.
unfoldable pub append_ack_frame : Bool → ℕ → AckGenerator → Option (List Frame × ℕ) × AckGenerator
append_ack_frame granted now m =
    let (g, m') = generate granted now m in
    (
      elim g [
        | nothing ↦ some ([], 0)
        | frame f ↦ (elim (frame_size (Frame.ack f)) [
          | some n ↦ some (Frame.ack f ∷ [], n)
          | none ↦ none
        ])
        | unset ↦ none
      ],
      m',
    )
