-- ===== src/Sender/Headers.antt =====
-- The headers that the sender writes, as the receiver reads them.
use openquic.Common.{
  ℕ, ◌+◌, ◌-◌, ◌^◌, ◌≤◌, ◌<◌, ◌≡◌, refl, ap, ◌∙◌, arith, List, [], ◌∷◌, ◌++◌, append_assoc, length,
  length-append, bit_and, bit_or,
}
use openquic.Common.Bits.{low_two_bits_initial, low_two_bits_handshake, low_two_bits_short}
use openquic.Varint.{varint_format_len, varint_bytes, be_bytes}
use openquic.Varint.RoundTrip.{length-varint_bytes}
use openquic.Frame.Wire.{ok, Buf, done, push}
use openquic.TransportParameter.Items.{load_varint-varint_bytes}
use openquic.Header.{
  LongHeader, long_header, number_format_len, number_format, initial_header, plain_header,
  handshake_header, short_header,
}
use openquic.Header.Numbers.{number_len_bounds, length-number_format, packet_number-number_format}
use openquic.Sender.{
  initial_header_max_size, handshake_header_max_size, generate_initial_header,
  generate_handshake_header, generate_short_header,
}
use openquic.Sender.Bytes.{
  store-Stores, Stores-seq, long_bytes, long-Stores, long-reads, step-append, initial_chain,
  plain_chain, short_chain,
}

module _ (dst src : List ℕ) (num len : ℕ) where
  abbrev size : ℕ
  size = number_format_len num

  abbrev number : List ℕ
  number = number_format num size

  field_lem : (f : ℕ → ℕ) → ((i : ℕ) → i < 4 → f i ≡ i) → f (size - 1) ≡ size - 1
  field_lem f h = let (a, b) = number_len_bounds num in h (size - 1) (omega arith)

  -- Where the identifiers have fewer than 256 bytes, the packet number is below 2 ^ 32, the
  -- length below 2 ^ 62, and the buffer has room for quic_sender_initial_header_max_size,
  -- quic_sender_generate_initial_header writes just so many bytes, from which quic_initial_header
  -- reads the same length and number, an empty token and the payload behind them, whatever that
  -- is but not empty, and the identifiers are read back.
  pub initial_header-generate_initial_header :
      (b : Buf)
      → length dst < 256
      → length src < 256
      → num < 2 ^ 32
      → len < 2 ^ 62
      → initial_header_max_size dst src num len ≤ b.room
      → (bytes : List ℕ) × (generate_initial_header dst src num len b ≡ done (push bytes b))
        × (length bytes ≡ initial_header_max_size dst src num len)
        × ((x : ℕ) (rest : List ℕ)
            → initial_header (bytes ++ x ∷ rest)
              ≡ ok (
                record { packet_type = 0xc0; token = []; payload_len = len; p_num = num },
                x ∷ rest,
              ))
        × ((rest : List ℕ)
            → (h : LongHeader) × (left : List ℕ) × (long_header (bytes ++ rest) ≡ ok (h, left))
              × (h.dst ≡ dst)
              × (h.src ≡ src))
  unfolding generate_initial_header initial_header_max_size be_bytes varint_format_len
  initial_header-generate_initial_header b h h' n l room =
      let first : ℕ = bit_or 0xc0 (size - 1) in
      let before : List ℕ = long_bytes dst src first in
      let bytes : List ℕ = ((before ++ varint_bytes 0) ++ varint_bytes len) ++ number in
      let total : length bytes ≡ initial_header_max_size dst src num len = omega (
        arith,
        length-append ((before ++ varint_bytes 0) ++ varint_bytes len) number,
        length-append (before ++ varint_bytes 0) (varint_bytes len),
        length-append before (varint_bytes 0),
        length-append ((first ∷ be_bytes 4 0) ++ (length dst ∷ dst)) (length src ∷ src),
        length-append (first ∷ be_bytes 4 0) (length dst ∷ dst),
        length-varint_bytes 0,
        length-varint_bytes len,
        length-number_format num,
      ) in
      (
        bytes,
        Stores-seq _ _ _ _
            (Stores-seq _ _ _ _
              (Stores-seq _ _ _ _ (long-Stores dst src first h h') (store-Stores (varint_bytes 0)))
              (store-Stores (varint_bytes len)))
            (store-Stores number) b (omega (arith, total)),
        total,
        λ x rest.
            let e : bytes ++ x ∷ rest
                ≡ before ++ (varint_bytes 0 ++ (varint_bytes len ++ (number ++ x ∷ rest))) =
              simp (append_assoc) in
            ap initial_header e
            ∙ initial_chain _ _ _ _ _ (x ∷ rest) [] _ 0 num len (long-reads dst src first _)
                (load_varint-varint_bytes 0 _ (omega arith)) (step-append [] _)
                (load_varint-varint_bytes len _ l)
                (packet_number-number_format first num x rest n
                  (field_lem (λ i. bit_and (bit_or 0xc0 i) 0x03) low_two_bits_initial)),
        λ rest.
            let e : bytes ++ rest
                ≡ before ++ (varint_bytes 0 ++ (varint_bytes len ++ (number ++ rest))) =
              simp (append_assoc) in
            (
              record { first_byte = first; version = 0; dst = dst; src = src },
              varint_bytes 0 ++ (varint_bytes len ++ (number ++ rest)),
              ap long_header e ∙ long-reads dst src first _,
              refl,
              refl,
            ),
      )

  -- What is written of a handshake header is read back likewise.
  pub handshake_header-generate_handshake_header :
      (b : Buf)
      → length dst < 256
      → length src < 256
      → num < 2 ^ 32
      → len < 2 ^ 62
      → handshake_header_max_size dst src num len ≤ b.room
      → (bytes : List ℕ) × (generate_handshake_header dst src num len b ≡ done (push bytes b))
        × (length bytes ≡ handshake_header_max_size dst src num len)
        × ((x : ℕ) (rest : List ℕ)
            → handshake_header (bytes ++ x ∷ rest)
              ≡ ok (
                record { packet_type = 0xe0; token = []; payload_len = len; p_num = num },
                x ∷ rest,
              ))
  unfolding generate_handshake_header handshake_header handshake_header_max_size be_bytes
  handshake_header-generate_handshake_header b h h' n l room =
      let first : ℕ = bit_or 0xe0 (size - 1) in
      let before : List ℕ = long_bytes dst src first in
      let bytes : List ℕ = (before ++ varint_bytes len) ++ number in
      let total : length bytes ≡ handshake_header_max_size dst src num len = omega (
        arith,
        length-append (before ++ varint_bytes len) number,
        length-append before (varint_bytes len),
        length-append ((first ∷ be_bytes 4 0) ++ (length dst ∷ dst)) (length src ∷ src),
        length-append (first ∷ be_bytes 4 0) (length dst ∷ dst),
        length-varint_bytes len,
        length-number_format num,
      ) in
      (
        bytes,
        Stores-seq _ _ _ _
            (Stores-seq _ _ _ _ (long-Stores dst src first h h') (store-Stores (varint_bytes len)))
            (store-Stores number) b (omega (arith, total)),
        total,
        λ x rest.
            let e : bytes ++ x ∷ rest ≡ before ++ (varint_bytes len ++ (number ++ x ∷ rest)) =
              simp (append_assoc) in
            ap (plain_header 0xe0) e
            ∙ plain_chain 0xe0 (before ++ (varint_bytes len ++ (number ++ x ∷ rest))) _ _ (x ∷ rest)
                _ num len (long-reads dst src first _) (load_varint-varint_bytes len _ l)
                (packet_number-number_format first num x rest n
                  (field_lem (λ i. bit_and (bit_or 0xe0 i) 0x03) low_two_bits_handshake)),
      )

  -- Where the packet number is below 2 ^ 32 and the buffer has room,
  -- quic_sender_generate_short_header writes as many bytes as the first byte, the identifier and
  -- the number have, from which quic_short_header, given the length of the identifier, reads the
  -- number and the payload behind it, whatever that is but not empty.
  pub short_header-generate_short_header :
      (b : Buf)
      → num < 2 ^ 32
      → 1 + length dst + size ≤ b.room
      → (bytes : List ℕ) × (generate_short_header dst num b ≡ done (push bytes b))
        × (length bytes ≡ 1 + length dst + size)
        × ((x : ℕ) (rest : List ℕ)
            → short_header (length dst) (bytes ++ x ∷ rest)
              ≡ ok (
                record { packet_type = 0x40; token = []; payload_len = 0; p_num = num },
                x ∷ rest,
              ))
  unfolding generate_short_header
  short_header-generate_short_header b n room =
      let first : ℕ = bit_or 0x40 (size - 1) in
      let bytes : List ℕ = (first ∷ dst) ++ number in
      let total : length bytes ≡ 1 + length dst + size =
        omega (arith, length-append dst number, length-number_format num) in
      (
        bytes,
        Stores-seq _ _ _ _ (store-Stores (first ∷ dst)) (store-Stores number) b
            (omega (arith, total)),
        total,
        λ x rest.
            let e : bytes ++ x ∷ rest ≡ first ∷ (dst ++ (number ++ x ∷ rest)) =
              simp (append_assoc) in
            ap (short_header (length dst)) e
            ∙ short_chain (length dst) first _ _ (x ∷ rest) dst num (step-append dst _) (
                packet_number-number_format first num x rest n
                  (field_lem (λ i. bit_and (bit_or 0x40 i) 0x03) low_two_bits_short)),
      )
