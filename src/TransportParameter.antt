-- ===== src/TransportParameter.antt =====
-- src/format/transport_parameter.h: the transport parameters of the handshake. The enum of their
-- numbers is written out, a quic_buf_t is the bytes between its `pos` and `last`, and `none` where
-- these were never set.
use openquic.Common.{
  ℕ, zero, suc, ◌+◌, ◌-◌, ◌*◌, ◌/◌, ◌%◌, ◌^◌, Bool, true, false, List, [], ◌∷◌, ◌++◌, Option, none,
  some, length, take, drop, ltb, ◌==◌, if◌then◌else◌, internal_error,
}
use openquic.Varint.{varint_len, varint_r, varint_format_len, be_bytes, varint_bytes}
use openquic.Frame.Wire.{
  Parser, ok, err, over_read, fault, ◌>>=◌, pure, Result, Buf, Written, done, failed, wild, Writer,
  ◌>>◌, push,
}
pub mod Items
pub mod Sizes
pub mod RoundTrip
pub mod Faults
mod Tests

-- quic_transport_parameter_t
pub record TransportParameter : Type 0 where
  pub original_connid : Option (List ℕ)
  pub idle_timeout : ℕ
  pub stateless_reset_token : Option (List ℕ)
  pub max_pkt_size : ℕ
  pub max_data : ℕ
  pub max_stream_data_bidi_local : ℕ
  pub max_stream_data_bidi_remote : ℕ
  pub max_stream_data_uni : ℕ
  pub max_stream_bidi : ℕ
  pub max_stream_uni : ℕ
  pub ack_delay_exponent : ℕ
  pub max_ack_delay : ℕ
  pub disable_migration : Bool
  pub active_connid : ℕ

-- quic_transport_parameter_init
unfoldable pub init : TransportParameter
init = record {
  original_connid = some [];
  idle_timeout = 0;
  stateless_reset_token = some [];
  max_pkt_size = 0;
  max_data = 0;
  max_stream_data_bidi_local = 0;
  max_stream_data_bidi_remote = 0;
  max_stream_data_uni = 0;
  max_stream_bidi = 0;
  max_stream_uni = 0;
  ack_delay_exponent = 3;
  max_ack_delay = 25000;
  disable_migration = false;
  active_connid = 0;
}

-- The last two terms of quic_transport_parameter_size, of bytes that are there.
unfoldable pub string_size : List ℕ → ℕ
string_size v = if length v == 0 then 0 else 4 + length v

-- quic_transport_parameter_size; `none` is a size taken of a buffer that was never set.
unfoldable pub size : TransportParameter → Option ℕ
unfolding string_size
size p = elim p.stateless_reset_token [
  | none ↦ none
  | some token ↦ elim p.original_connid [
    | none ↦ none
    | some connid ↦ some (
        2
        + (4 + varint_format_len p.idle_timeout)
        + (4 + varint_format_len p.max_pkt_size)
        + (4 + varint_format_len p.max_data)
        + (4 + varint_format_len p.max_stream_data_bidi_local)
        + (4 + varint_format_len p.max_stream_data_bidi_remote)
        + (4 + varint_format_len p.max_stream_data_uni)
        + (4 + varint_format_len p.max_stream_bidi)
        + (4 + varint_format_len p.max_stream_uni)
        + (4 + varint_format_len p.max_ack_delay)
        + (4 + varint_format_len p.ack_delay_exponent)
        + (4 + varint_format_len (p.active_connid / 1000))
        + (if p.disable_migration then 4 else 0)
        + string_size token
        + string_size connid)
  ]
]

-- quic_transport_parameter_varint_format
unfoldable pub varint_format : ℕ → ℕ → Writer
varint_format id v b =
    if ltb b.room (4 + varint_format_len v)
    then failed internal_error b
    else done (push (be_bytes 2 id ++ (be_bytes 2 (varint_format_len v) ++ varint_bytes v)) b)

-- quic_transport_parameter_string_format
unfoldable pub string_format : ℕ → Option (List ℕ) → Writer
string_format id none b = wild
string_format id (some v) b =
    if length v == 0
    then done b
    else if ltb b.room (4 + length v)
    then failed internal_error b
    else done (push (be_bytes 2 id ++ (be_bytes 2 (length v) ++ v)) b)

-- quic_transport_parameter_bool_format
unfoldable pub bool_format : ℕ → Bool → Writer
bool_format id v b =
    if v
    then (if ltb b.room 4
        then failed internal_error b
        else done (push (be_bytes 2 id ++ be_bytes 2 0) b))
    else done b

-- The calls that quic_transport_parameter_format joins by `&&`.
unfoldable pub format_all : TransportParameter → Writer
format_all p =
    varint_format 0x01 p.idle_timeout
    >> varint_format 0x03 p.max_pkt_size
    >> varint_format 0x04 p.max_data
    >> varint_format 0x05 p.max_stream_data_bidi_local
    >> varint_format 0x06 p.max_stream_data_bidi_remote
    >> varint_format 0x07 p.max_stream_data_uni
    >> varint_format 0x08 p.max_stream_bidi
    >> varint_format 0x09 p.max_stream_uni
    >> varint_format 0x0a p.ack_delay_exponent
    >> varint_format 0x0b p.max_ack_delay
    >> varint_format 0x0e p.active_connid
    >> string_format 0x00 p.original_connid
    >> string_format 0x02 p.stateless_reset_token
    >> bool_format 0x0c p.disable_migration

-- quic_transport_parameter_format. The two bytes of the length are stepped over with no test; what
-- follows tests the room. The length counts from the start of the buffer, and is stored in the end: `x` and
-- `y` are what the two bytes held before.
unfoldable pub format : ℕ → ℕ → TransportParameter → Writer
format x y p b = elim (format_all p (record { out = []; room = b.room - 2 })) [
  | done b' ↦ done (record {
    out = b.out ++ (be_bytes 2 (length b.out + 2 + length b'.out) ++ b'.out);
    room = b'.room;
  })
  | failed e b' ↦ failed e (record { out = b.out ++ (x ∷ y ∷ b'.out); room = b'.room })
  | wild ↦ wild
]

-- `quic_bswap_16(*(uint16_t *) buf->pos)` and a step over it.
unfoldable pub u16 : Parser ℕ
u16 [] = fault
u16 (a ∷ []) = fault
u16 (a ∷ b ∷ bs) = ok (a * 256 + b, bs)

-- `buf->pos += 2`
unfoldable pub skip_len : Parser (Unit {0})
skip_len bs = ok (tt, drop 2 bs)

-- quic_varint_r and quic_varint_len, which make no test.
unfoldable pub load_varint : Parser ℕ
load_varint [] = fault
load_varint (b ∷ bs) =
    if ltb (length (b ∷ bs)) (varint_len b)
    then fault
    else ok (varint_r b bs, drop (varint_len b) (b ∷ bs))

-- quic_transport_parameter_varint_parse
unfoldable pub varint_parse : Parser ℕ
unfolding skip_len load_varint
varint_parse = do _ ← skip_len; load_varint

-- The part of quic_transport_parameter_string_parse behind the length. `granted` is malloc's answer
-- by the number of bytes left.
unfoldable pub string_body : (ℕ → Bool) → ℕ → Parser (Option (List ℕ))
string_body granted len bs =
    if ltb (length bs) len
    then ok (none, bs)
    else if granted (length bs)
    then ok (some (take len bs), drop len bs)
    else ok (none, bs)

-- quic_transport_parameter_string_parse
unfoldable pub string_parse : (ℕ → Bool) → Parser (Option (List ℕ))
unfolding u16 string_body
string_parse granted = do len ← u16; string_body granted len

-- quic_transport_parameter_bool_parse
unfoldable pub bool_parse : Parser Bool
unfolding skip_len
bool_parse = do _ ← skip_len; pure true

-- The switch of quic_transport_parameter_parse.
unfoldable pub param_parse : (ℕ → Bool) → TransportParameter → ℕ → Parser TransportParameter
param_parse granted p id =
    if id == 0x00
    then (do v ← string_parse granted; pure (record p { original_connid = v }))
    else if id == 0x01
    then (do v ← varint_parse; pure (record p { idle_timeout = v }))
    else if id == 0x02
    then (do v ← string_parse granted; pure (record p { stateless_reset_token = v }))
    else if id == 0x03
    then (do v ← varint_parse; pure (record p { max_pkt_size = v }))
    else if id == 0x04
    then (do v ← varint_parse; pure (record p { max_data = v }))
    else if id == 0x05
    then (do v ← varint_parse; pure (record p { max_stream_data_bidi_local = v }))
    else if id == 0x06
    then (do v ← varint_parse; pure (record p { max_stream_data_bidi_remote = v }))
    else if id == 0x07
    then (do v ← varint_parse; pure (record p { max_stream_data_uni = v }))
    else if id == 0x08
    then (do v ← varint_parse; pure (record p { max_stream_bidi = v }))
    else if id == 0x09
    then (do v ← varint_parse; pure (record p { max_stream_uni = v }))
    else if id == 0x0a
    then (do v ← varint_parse; pure (record p { ack_delay_exponent = v % 2 ^ 8 }))
    else if id == 0x0b
    then (do v ← varint_parse; pure (record p { max_ack_delay = v }))
    else if id == 0x0c
    then (do v ← bool_parse; pure (record p { disable_migration = v }))
    else if id == 0x0e
    then (do v ← varint_parse; pure (record p { active_connid = v }))
    else pure p

-- The loop, with fuel for each round.
unfoldable pub params_parse : (ℕ → Bool) → ℕ → TransportParameter → Parser TransportParameter
unfolding u16
params_parse granted zero p bs = ok (p, bs)
params_parse granted (suc n) p bs = elim (ltb (length bs) 4) [
  | true ↦ ok (p, bs)
  | false ↦ elim ((u16 >>= param_parse granted p) bs) [
    | ok (p', rest) ↦ params_parse granted n p' rest
    | err e ↦ err e
    | over_read ↦ over_read
    | fault ↦ fault
  ]
]

-- quic_transport_parameter_parse. A length that does not fit leaves the defaults.
unfoldable pub parse : (ℕ → Bool) → Parser TransportParameter
parse granted bs = elim (u16 bs) [
  | ok (len, rest) ↦
      if (len + 2 ^ 16 - 2) % 2 ^ 16 == length rest
      then params_parse granted (length rest) init rest
      else ok (init, rest)
  | err e ↦ err e
  | over_read ↦ over_read
  | fault ↦ fault
]
