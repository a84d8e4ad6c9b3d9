-- ===== src/TransportParameter/Sizes.antt =====
-- How many bytes quic_transport_parameter_format needs, and its length field.
use openquic.Common.{
  ℕ, ◌+◌, ◌-◌, ◌/◌, ◌%◌, ◌^◌, ◌≤◌, ◌<◌, ◌≡◌, refl, sym, arith, Bool, true, List, [], ◌∷◌, ◌++◌,
  some, length, ◌==◌, if◌then◌else◌, internal_error,
}
use openquic.Varint.{varint_format_len, be_bytes}
use openquic.Varint.RoundTrip.{IsVarint, format_len_bounds}
use openquic.Frame.Wire.{Buf, done, failed}
use openquic.TransportParameter.{
  TransportParameter, init, string_size, size, format_all, format, u16, parse,
}
use openquic.TransportParameter.Items.{parsed, u16_bytes}

-- The values that the encoding has room for.
pub record IsEncodable (p : TransportParameter) (connid token : List ℕ) : Type 0 where
  pub connid_lem : p.original_connid ≡ some connid
  pub token_lem : p.stateless_reset_token ≡ some token
  pub idle_timeout : IsVarint p.idle_timeout
  pub max_pkt_size : IsVarint p.max_pkt_size
  pub max_data : IsVarint p.max_data
  pub max_stream_data_bidi_local : IsVarint p.max_stream_data_bidi_local
  pub max_stream_data_bidi_remote : IsVarint p.max_stream_data_bidi_remote
  pub max_stream_data_uni : IsVarint p.max_stream_data_uni
  pub max_stream_bidi : IsVarint p.max_stream_bidi
  pub max_stream_uni : IsVarint p.max_stream_uni
  pub ack_delay_exponent : p.ack_delay_exponent < 2 ^ 8
  pub max_ack_delay : IsVarint p.max_ack_delay
  pub active_connid : IsVarint p.active_connid
  pub short_connid : length connid < 2 ^ 14
  pub short_token : length token < 2 ^ 14

-- What is written behind the length.
abbrev pub body_size : TransportParameter → List ℕ → List ℕ → ℕ
body_size p connid token =
    (4 + varint_format_len p.idle_timeout)
    + (4 + varint_format_len p.max_pkt_size)
    + (4 + varint_format_len p.max_data)
    + (4 + varint_format_len p.max_stream_data_bidi_local)
    + (4 + varint_format_len p.max_stream_data_bidi_remote)
    + (4 + varint_format_len p.max_stream_data_uni)
    + (4 + varint_format_len p.max_stream_bidi)
    + (4 + varint_format_len p.max_stream_uni)
    + (4 + varint_format_len p.ack_delay_exponent)
    + (4 + varint_format_len p.max_ack_delay)
    + (4 + varint_format_len p.active_connid)
    + string_size connid
    + string_size token
    + (if p.disable_migration then 4 else 0)

pub same :
    (p : TransportParameter) (connid token : List ℕ)
    → IsEncodable p connid token
    → record p { original_connid = some connid; stateless_reset_token = some token } ≡ p
same p connid token h = λ i. record p {
  original_connid = sym h.connid_lem i;
  stateless_reset_token = sym h.token_lem i;
}

-- quic_transport_parameter_size, which takes the length of a thousandth of active_connid.
pub size_lem :
    (p : TransportParameter) (connid token : List ℕ)
    → IsEncodable p connid token
    → (n : ℕ) × (size p ≡ some n)
      × (n + varint_format_len p.active_connid
          ≡ 2 + body_size p connid token + varint_format_len (p.active_connid / 1000))
unfolding size
size_lem p connid token h = rw (← same p connid token h) (_, refl, omega arith)

-- No more than the two bytes of the length can count.
pub body_size_lt :
    (p : TransportParameter) (connid token : List ℕ)
    → IsEncodable p connid token
    → body_size p connid token < 2 ^ 16 - 2
unfolding string_size
body_size_lt p connid token h = omega (
  arith,
  format_len_bounds p.idle_timeout h.idle_timeout,
  format_len_bounds p.max_pkt_size h.max_pkt_size,
  format_len_bounds p.max_data h.max_data,
  format_len_bounds p.max_stream_data_bidi_local h.max_stream_data_bidi_local,
  format_len_bounds p.max_stream_data_bidi_remote h.max_stream_data_bidi_remote,
  format_len_bounds p.max_stream_data_uni h.max_stream_data_uni,
  format_len_bounds p.max_stream_bidi h.max_stream_bidi,
  format_len_bounds p.max_stream_uni h.max_stream_uni,
  format_len_bounds p.ack_delay_exponent (omega (arith, h.ack_delay_exponent)),
  format_len_bounds p.max_ack_delay h.max_ack_delay,
  format_len_bounds p.active_connid h.active_connid,
  string_size_le connid,
  string_size_le token,
  h.short_connid,
  h.short_token,
  flag_le p.disable_migration,
)
  where
    string_size_le : (v : List ℕ) → string_size v ≤ 4 + length v
    string_size_le v = ground arith

    flag_le : (v : Bool) → (if v then (let n : ℕ = 4 in n) else 0) ≤ 4
    flag_le v = ground arith

-- The length in front, and the rest of it.
pub format_lem :
    (x y : ℕ) (p : TransportParameter) (b b' : Buf)
    → format_all p (record { out = []; room = b.room - 2 }) ≡ done b'
    → format x y p b
      ≡ done (record {
        out = b.out ++ (be_bytes 2 (length b.out + 2 + length b'.out) ++ b'.out);
        room = b'.room;
      })
unfolding format
format_lem x y p b b' e = rw (e, format)

pub format_fails :
    (x y : ℕ) (p : TransportParameter) (b b' : Buf)
    → format_all p (record { out = []; room = b.room - 2 }) ≡ failed internal_error b'
    → format x y p b
      ≡ failed internal_error (record { out = b.out ++ (x ∷ y ∷ b'.out); room = b'.room })
unfolding format
format_fails x y p b b' e = rw (e, format)

pub length-be_bytes : (v : ℕ) → length (be_bytes 2 v) ≡ 2
unfolding be_bytes
length-be_bytes v = refl

pub parse_lem :
    (granted : ℕ → Bool) (n : ℕ) (bytes : List ℕ)
    → n ≡ 2 + length bytes
    → n < 2 ^ 16
    → parse granted (be_bytes 2 n ++ bytes) ≡ parsed granted init bytes
unfolding parse u16 be_bytes
parse_lem granted n bytes l h =
    let t : (n + 2 ^ 16 - 2) % 2 ^ 16 == length bytes ≡ true = ground arith in
    rw (u16_bytes n h) (rw t)
