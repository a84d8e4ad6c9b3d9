-- ===== src/Sender.antt =====
-- The headers that src/modules/sender.c writes, with the lengths it counts for them. A header is
-- written into a fresh buffer on the stack with no test of its room: what does not fit is wild.
use openquic.Common.{
  ℕ, ◌+◌, ◌-◌, ◌%◌, List, [], ◌∷◌, ◌++◌, length, take, ltb, if◌then◌else◌, bit_or,
}
use openquic.Varint.{varint_format_len, varint_bytes, be_bytes}
use openquic.Frame.Wire.{Buf, Written, done, failed, wild, Writer, ◌>>◌, push}
use openquic.Header.{number_format_len, number_format}
pub mod Bytes
pub mod Headers
mod Tests

unfoldable pub store : List ℕ → Writer
store bs b = if ltb b.room (length bs) then wild else done (push bs b)

-- The length of an identifier in one byte, and the identifier; what is copied behind the length that
-- the byte tells is written over by what follows.
unfoldable pub store_conn : List ℕ → Writer
unfolding store
store_conn conn b =
    if ltb b.room (1 + length conn)
    then wild
    else store (length conn % 256 ∷ take (length conn % 256) conn) b

module _ (dst src : List ℕ) where
  -- quic_sender_generate_long_header. The callers change the first byte later; here it is given.
  unfoldable pub generate_long_header : ℕ → Writer
  unfolding store store_conn
  generate_long_header first = store (first ∷ be_bytes 4 0) >> store_conn dst >> store_conn src

  -- quic_sender_generate_initial_header
  unfoldable pub generate_initial_header : ℕ → ℕ → Writer
  unfolding generate_long_header store
  generate_initial_header num payload_len =
      generate_long_header (bit_or 0xc0 (number_format_len num - 1))
      >> store (varint_bytes 0)
      >> store (varint_bytes payload_len)
      >> store (number_format num (number_format_len num))

  -- quic_sender_initial_header_max_size
  unfoldable pub initial_header_max_size : ℕ → ℕ → ℕ
  initial_header_max_size num payload_max_len =
      1
      + 4
      + 1
      + length dst
      + 1
      + length src
      + varint_format_len 0
      + varint_format_len payload_max_len
      + number_format_len num

  -- quic_sender_generate_0rtt_header
  unfoldable pub generate_0rtt_header : Writer
  unfolding generate_long_header
  generate_0rtt_header = generate_long_header 0xd0

  -- quic_sender_generate_handshake_header
  unfoldable pub generate_handshake_header : ℕ → ℕ → Writer
  unfolding generate_long_header store
  generate_handshake_header num payload_len =
      generate_long_header (bit_or 0xe0 (number_format_len num - 1))
      >> store (varint_bytes payload_len)
      >> store (number_format num (number_format_len num))

  -- quic_sender_handshake_header_max_size
  unfoldable pub handshake_header_max_size : ℕ → ℕ → ℕ
  handshake_header_max_size num payload_max_len =
      1
      + 4
      + 1
      + length dst
      + 1
      + length src
      + varint_format_len payload_max_len
      + number_format_len num

  -- quic_sender_generate_retry_header
  unfoldable pub generate_retry_header : Writer
  unfolding generate_long_header
  generate_retry_header = generate_long_header 0xf0

-- quic_sender_generate_short_header
unfoldable pub generate_short_header : List ℕ → ℕ → Writer
unfolding store
generate_short_header dst num =
    store (bit_or 0x40 (number_format_len num - 1) ∷ dst)
    >> store (number_format num (number_format_len num))
