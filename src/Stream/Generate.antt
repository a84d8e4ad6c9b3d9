-- ===== src/Stream/Generate.antt =====
-- What quic_send_stream_generate of src/modules/stream.c sends.
use openquic.Common.{
  ℕ, ◌+◌, ◌^◌, ◌≤◌, ◌<◌, ◌≡◌, ◌≢◌, refl, sym, ◌∙◌, inl, inr, arith, Bool, true, false, not, ◌&&◌,
  List, [], Option, none, some, length, take, drop, length-take, ◌==◌, if◌then◌else◌, Bool-cases,
  add64,
}
use mathlib.Core.Option.{some-injective, none-ne-some}
use mathlib.Core.Path.{subst}
use openquic.Varint.{varint_format_len}
use openquic.Frame
use openquic.Frame.{Frame}
use openquic.Frame.Parse.{has_flag}
use openquic.Frame.Size.{stream_size}
use openquic.StreamFlowctrl.{StreamFlowctrl, get_swnd, sent, newly_blocked}
use openquic.Stream.Send.{
  SendStream, Generated, header_len, frame_capacity, blocked, flags, should_send_fin, made,
  frame_of, made_empty, made_some, ends, offered, payload_size, generate,
}

flag_off : (a b c : Bool) → has_flag 0x0c (flags a b c) ≡ a
unfolding flags
flag_off true true true = refl
flag_off true true false = refl
flag_off true false true = refl
flag_off true false false = refl
flag_off false true true = refl
flag_off false true false = refl
flag_off false false true = refl
flag_off false false false = refl

flag_len : (a b c : Bool) → has_flag 0x0a (flags a b c) ≡ b
unfolding flags
flag_len true true true = refl
flag_len true true false = refl
flag_len true false true = refl
flag_len true false false = refl
flag_len false true true = refl
flag_len false true false = refl
flag_len false false true = refl
flag_len false false false = refl

pub flag_fin : (a b c : Bool) → has_flag 0x09 (flags a b c) ≡ c
unfolding flags
flag_fin true true true = refl
flag_fin true true false = refl
flag_fin true false true = refl
flag_fin true false false = refl
flag_fin false true true = refl
flag_fin false true false = refl
flag_fin false false true = refl
flag_fin false false false = refl

format_len_mono : (a b : ℕ) → a ≤ b → b < 2 ^ 62 → varint_format_len a ≤ varint_format_len b
unfolding varint_format_len
format_len_mono a b h k = ground arith

pub offered_bounds :
    (s : SendStream) (f : StreamFlowctrl)
    → (offered s f ≤ length s.reader) × (offered s f ≤ get_swnd f)
unfolding offered
offered_bounds s f = ground arith

capacity_lem :
    (bytes key off : ℕ) (fill : Bool) (n : ℕ)
    → 0 < frame_capacity bytes key off fill n
    → header_len key off fill n + frame_capacity bytes key off fill n ≤ bytes
unfolding frame_capacity
capacity_lem bytes key off fill n h = ground arith

pub payload_bounds :
    (bytes key : ℕ) (fill : Bool) (s : SendStream) (f : StreamFlowctrl)
    → (payload_size bytes key fill s f ≤ offered s f)
      × (payload_size bytes key fill s f ≤ frame_capacity bytes key s.off fill (offered s f))
unfolding payload_size
payload_bounds bytes key fill s f = ground arith

header_mono :
    (key off : ℕ) (fill : Bool) (n m : ℕ)
    → n ≤ m
    → m < 2 ^ 62
    → header_len key off fill n ≤ header_len key off fill m
unfolding header_len
header_mono key off fill n m h k = ground (arith, format_len_mono n m h k)

-- The frame carries the data that is next, and the stream goes on behind it.
pub record Sends (bytes key : ℕ) (fill : Bool) (s : SendStream) (f : StreamFlowctrl) (r : Generated)
    (fr : Frame.Stream) : Type 0 where
  pub sid : fr.sid ≡ key
  pub off : fr.off ≡ s.off
  pub payload : fr.payload ≡ take fr.len s.reader
  pub size : length fr.payload ≡ fr.len
  pub credit : fr.len ≤ get_swnd f
  pub rest : r.send.reader ≡ drop fr.len s.reader
  pub next : r.send.off ≡ add64 s.off fr.len
  pub flow : r.flow ≡ (if length s.reader == 0 then f else sent fr.len f)
  pub fits : 0 < fr.len → stream_size fr ≤ bytes

pub size_lem :
    (key off n : ℕ) (fill c : Bool) (bs : List ℕ)
    → stream_size (record {
      first_byte = flags (not (off == 0)) (not fill) c;
      sid = key;
      off = off;
      len = n;
      payload = bs;
    })
      ≡ header_len key off fill n + n
unfolding stream_size header_len
size_lem key off n fill c bs =
    rw (flag_off (not (off == 0)) (not fill) c, flag_len (not (off == 0)) (not fill) c)

room :
    (bytes key : ℕ) (fill : Bool) (s : SendStream) (f : StreamFlowctrl)
    → length s.reader < 2 ^ 62
    → 0 < payload_size bytes key fill s f
    → header_len key s.off fill (payload_size bytes key fill s f) + payload_size bytes key fill s f
      ≤ bytes
room bytes key fill s f small pos =
    let (a, b) = payload_bounds bytes key fill s f in
    let (c, d) = offered_bounds s f in
    omega (
      arith,
      capacity_lem bytes key s.off fill (offered s f) (omega arith),
      header_mono key s.off fill (payload_size bytes key fill s f) (offered s f) a (omega arith),
    )

blocked-none :
    (granted : Bool) (key : ℕ) (s : SendStream) (f : StreamFlowctrl)
    → (blocked granted key s f).frame ≡ none
unfolding blocked
blocked-none granted key s f = go (newly_blocked f).0 refl
  where
    go : (o : Option ℕ) → (newly_blocked f).0 ≡ o → (blocked granted key s f).frame ≡ none
    go none e = rw (e, blocked)
    go (some m) e = rw (e, blocked)

made_empty-Sends :
    (bytes n key : ℕ) (fill : Bool) (s : SendStream) (f : StreamFlowctrl)
    → length s.reader ≡ 0
    → n ≡ 0
    → Sends bytes key fill s f
        (made_empty n key fill s f)
        (frame_of n key fill (should_send_fin s) [] s)
unfolding made_empty
made_empty-Sends bytes n key fill s f z k = record {
  sid = refl;
  off = refl;
  payload = rw k;
  size = sym k;
  credit = omega arith;
  rest = rw k;
  next = refl;
  flow = ground arith;
  fits = λ h. absurd (omega arith);
}

made_some-Sends :
    (bytes n key : ℕ) (fill : Bool) (s : SendStream) (f : StreamFlowctrl)
    → length s.reader ≢ 0
    → n ≤ length s.reader
    → n ≤ get_swnd f
    → (0 < n → header_len key s.off fill n + n ≤ bytes)
    → Sends bytes key fill s f
        (made_some n key fill s f)
        (frame_of n key fill (ends n s) (take n s.reader) s)
unfolding made_some
made_some-Sends bytes n key fill s f z le credit fits = record {
  sid = refl;
  off = refl;
  payload = refl;
  size = length-take n s.reader le;
  credit = credit;
  rest = refl;
  next = refl;
  flow = ground arith;
  fits = λ h. omega (arith, size_lem key s.off n fill (ends n s) (take n s.reader), fits h);
}

made-Sends :
    (bytes n key : ℕ) (fill : Bool) (s : SendStream) (f : StreamFlowctrl) (fr : Frame.Stream)
    → n ≤ length s.reader
    → n ≤ get_swnd f
    → (0 < n → header_len key s.off fill n + n ≤ bytes)
    → (made n key fill s f).frame ≡ some fr
    → Sends bytes key fill s f (made n key fill s f) fr
unfolding made made_empty made_some
made-Sends bytes n key fill s f fr le credit fits e = elim (Bool-cases (length s.reader == 0)) [
  | inl nothing ↦
      let e' : some (frame_of n key fill (should_send_fin s) [] s) ≡ some fr =
        rw (nothing, made) at e in
      rw (nothing, made)
        (subst (Sends bytes key fill s f (made_empty n key fill s f)) (some-injective _ _ e')
          (made_empty-Sends bytes n key fill s f (ground arith) (ground arith)))
  | inr something ↦
      let e' : some (frame_of n key fill (ends n s) (take n s.reader) s) ≡ some fr =
        rw (something, made) at e in
      rw (something, made)
        (subst (Sends bytes key fill s f (made_some n key fill s f)) (some-injective _ _ e')
          (made_some-Sends bytes n key fill s f (λ z. ground arith) le credit fits))
]

-- Of a stream with fewer than 2 ^ 62 bytes to send, a frame that quic_send_stream_generate makes
-- carries the data that is next, as much as its length says, no more than the credit allows, and
-- fits the room if it has any data; the stream goes on behind it, and the credit is used up by as
-- much.
pub generate-Sends :
    (for_blocked for_frame : Bool) (bytes key : ℕ) (fill : Bool) (s : SendStream)
    (f : StreamFlowctrl) (fr : Frame.Stream)
    → length s.reader < 2 ^ 62
    → (generate for_blocked for_frame key bytes fill s f).frame ≡ some fr
    → Sends bytes key fill s f (generate for_blocked for_frame key bytes fill s f) fr
unfolding generate
generate-Sends for_blocked for_frame bytes key fill s f fr small e =
    elim (Bool-cases (payload_size bytes key fill s f == 0 && not s.is_closed)) [
      | inl idle ↦
          absurd
            (none-ne-some fr (sym (blocked-none for_blocked key s f) ∙ (rw (idle, generate) at e)))
      | inr busy ↦ elim (Bool-cases for_frame) [
        | inl given ↦
            let (a, b) = payload_bounds bytes key fill s f in
            let (c, d) = offered_bounds s f in
            rw (busy, given, generate)
              (made-Sends bytes (payload_size bytes key fill s f) key fill s f fr (omega arith)
                (omega arith) (room bytes key fill s f small) (rw (busy, given, generate) at e))
        | inr refused ↦ absurd (none-ne-some fr (rw (busy, refused, generate) at e))
      ]
    ]
