-- ===== src/Header.antt =====
-- src/format/header.h: packet headers, read from the bytes of a packet. The macros make no test of
-- the length: a step or a read behind the last byte is a fault. The pointer that is left is the rest
-- of the bytes.
use openquic.Common.{
  ℕ, ◌+◌, ◌^◌, Bool, not, List, [], ◌∷◌, Option, none, some, length, take, drop, ltb, ◌==◌,
  if◌then◌else◌, bit_and,
}
use openquic.Varint.{read_be, be_bytes}
use openquic.Frame.Wire.{Parser, Result, ok, err, fault, ◌>>=◌, pure, first_byte}
use openquic.TransportParameter.{load_varint}
pub mod Numbers
pub mod Offset
mod Tests

-- quic_header_is_long
unfoldable pub is_long : ℕ → Bool
is_long first = not (bit_and first 0x80 == 0)

-- quic_packet_type
unfoldable pub packet_type : ℕ → ℕ
packet_type first = bit_and first 0xf0

-- A step over `n` bytes.
unfoldable pub step : ℕ → Parser (List ℕ)
step n bs = if ltb (length bs) n then fault else ok (take n bs, drop n bs)

-- quic_long_header_t, with the two identifiers that quic_long_header_dst_conn and
-- quic_long_header_src_conn find in its area.
pub record LongHeader : Type 0 where
  pub first_byte : ℕ
  pub version : ℕ
  pub dst : List ℕ
  pub src : List ℕ

-- A length of one byte and the identifier behind it.
unfoldable pub conn : Parser (List ℕ)
unfolding first_byte step
conn = do len ← first_byte; step len

-- The way to quic_long_header_payload.
unfoldable pub long_header : Parser LongHeader
unfolding first_byte step conn
long_header = do
  first ← first_byte
  version ← step 4
  dst ← conn
  src ← conn
  pure (record { first_byte = first; version = read_be 0 4 version; dst = dst; src = src })

-- quic_packet_number_r, and the step over quic_packet_number_len bytes. A number of three bytes is
-- the upper part of a load of four.
unfoldable pub packet_number : ℕ → Parser ℕ
packet_number field bs =
    let n = bit_and field 0x03 + 1 in
    if ltb (length bs) (if n == 3 then 4 else n) then fault else ok (read_be 0 n bs, drop n bs)

-- quic_packet_number_format_len, of which one bound is the decimal 1000000.
unfoldable pub number_format_len : ℕ → ℕ
number_format_len num =
    if ltb num 0x100 then 1 else if ltb num 0x10000 then 2 else if ltb num 1000000 then 3 else 4

-- quic_packet_number_format: the bytes that it stores.
unfoldable pub number_format : ℕ → ℕ → List ℕ
unfolding be_bytes
number_format num len =
    if len == 1
    then be_bytes 1 num
    else if len == 2
    then be_bytes 2 num
    else if len == 3
    then be_bytes 3 num
    else if len == 4
    then be_bytes 4 num
    else []

-- quic_payload_t and the structs that extend it; only an initial packet has a token.
pub record Payload : Type 0 where
  pub packet_type : ℕ
  pub token : List ℕ
  pub payload_len : ℕ
  pub p_num : ℕ

-- quic_initial_header
unfoldable pub initial_header : Parser Payload
unfolding long_header load_varint step packet_number
initial_header = do
  header ← long_header
  token_len ← load_varint
  token ← step token_len
  len ← load_varint
  num ← packet_number header.first_byte
  pure (record { packet_type = 0xc0; token = token; payload_len = len; p_num = num })

-- quic_0rtt_header and quic_handshake_header, which store different types.
unfoldable pub plain_header : ℕ → Parser Payload
unfolding long_header load_varint packet_number
plain_header kind = do
  header ← long_header
  len ← load_varint
  num ← packet_number header.first_byte
  pure (record { packet_type = kind; token = []; payload_len = len; p_num = num })

-- quic_0rtt_header
unfoldable pub zero_rtt_header : Parser Payload
unfolding plain_header
zero_rtt_header = plain_header 0xd0

-- quic_handshake_header
unfoldable pub handshake_header : Parser Payload
unfolding plain_header
handshake_header = plain_header 0xe0

-- quic_short_header, of an identifier of `len` bytes. The length of the payload is set by the caller.
unfoldable pub short_header : ℕ → Parser Payload
unfolding first_byte step packet_number
short_header len = do
  first ← first_byte
  id ← step len
  num ← packet_number first
  pure (record { packet_type = 0x40; token = []; payload_len = 0; p_num = num })

-- The cases of quic_header_packet_number_off; `none` is NULL.
unfoldable pub initial_off : Parser (Option ℕ)
unfolding long_header load_varint step
initial_off = do
  header ← long_header
  token_len ← load_varint
  token ← step token_len
  len ← load_varint
  pure (some header.first_byte)

unfoldable pub handshake_off : Parser (Option ℕ)
unfolding long_header load_varint
handshake_off = do header ← long_header; len ← load_varint; pure (some header.first_byte)

unfoldable pub short_off : ℕ → Parser (Option ℕ)
unfolding first_byte step
short_off src_len = do first ← first_byte; id ← step src_len; pure (some first)

-- quic_header_packet_number_off: the bytes at the pointer, with the first byte of the packet.
unfoldable pub packet_number_off : ℕ → Parser (Option ℕ)
unfolding is_long packet_type initial_off handshake_off short_off
packet_number_off src_len [] = fault
packet_number_off src_len (first ∷ bs) =
    if is_long first
    then (if packet_type first == 0xc0
        then initial_off (first ∷ bs)
        else if packet_type first == 0xe0
        then handshake_off (first ∷ bs)
        else pure none (first ∷ bs))
    else short_off src_len (first ∷ bs)
