-- ===== src/Recver/Headers.antt =====
-- The header that the receiver reads, against quic_header_packet_number_off, by which the sealer has
-- opened the packet.
use openquic.Common.{ℕ, ◌≡◌, ◌≢◌, inl, inr, arith, false, List, ◌∷◌, ◌==◌, Bool-cases}
use openquic.Frame.Wire.{ok}
use openquic.Header.{is_long, packet_type, Payload, packet_number_off, handshake_header}
use openquic.Header.Offset.{Found, initial_lem, plain_lem, short_lem}
use openquic.Recver.{read_header}

-- Whatever header the receiver reads from a packet that is not of the type 0-RTT, its number is
-- the one that is found where quic_header_packet_number_off points, and the payload is what is
-- behind it.
pub read_header-Found :
    (src_len first : ℕ) (bs rest : List ℕ) (p : Payload)
    → packet_type first ≢ 0xd0
    → read_header src_len (first ∷ bs) ≡ ok (p, rest)
    → Found src_len first bs p rest
unfolding read_header packet_number_off handshake_header
read_header-Found src_len first bs rest p n e = elim (Bool-cases (is_long first)) [
  | inr short ↦
      let (at, d, f) = short_lem src_len first bs rest p (rw short at e) in (at, rw short d, f)
  | inl long ↦ elim (Bool-cases (packet_type first == 0xc0)) [
    | inl initial ↦
        let (at, d, f) = initial_lem first bs rest p (rw (long, initial) at e) in
        (at, rw (long, initial) d, f)
    | inr not_initial ↦ elim (Bool-cases (packet_type first == 0xe0)) [
      | inl handshake ↦
          let (at, d, f) =
            plain_lem 0xe0 first bs rest p (rw (long, not_initial, handshake) at e) in
          (at, rw (long, not_initial, handshake) d, f)
      | inr not_handshake ↦
          let t : packet_type first == 0xd0 ≡ false = ground arith in
          elim (Bool-cases (packet_type first == 0xf0)) [
            | inl retry ↦ let no = (rw (long, not_initial, not_handshake, t, retry) at e) in cc
            | inr other ↦ let no = (rw (long, not_initial, not_handshake, t, other) at e) in cc
          ]
    ]
  ]
]
