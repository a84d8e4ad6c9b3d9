-- ===== src/TransportParameter/Faults.antt =====
-- Inputs that src/format/transport_parameter.h does not take as they are meant.
use openquic.Common.{
  ℕ, ◌+◌, ◌^◌, ◌≤◌, ◌<◌, ◌≡◌, ◌≢◌, refl, ◌∙◌, arith, Bool, List, [], ◌∷◌, ◌++◌, none, length,
}
use openquic.Varint.{varint_format_len, be_bytes, varint_bytes}
use openquic.Varint.RoundTrip.{length-varint_bytes}
use openquic.Frame.Wire.{ok, fault, ◌>>=◌}
use openquic.TransportParameter.{
  TransportParameter, init, u16, skip_len, load_varint, varint_parse, string_body, string_parse,
  param_parse, parse,
}
use openquic.TransportParameter.Sizes.{parse_lem}
use openquic.TransportParameter.Items.{
  parsed, parsed_short, round, round-fault, u16_bytes, read_number,
}

-- An identifier that is in no case of the switch is stepped over, and its length is not.
unknown_lem :
    (granted : ℕ → Bool) (p : TransportParameter) (id : ℕ) (bs : List ℕ)
    → 0x0f ≤ id
    → param_parse granted p id bs ≡ ok (p, bs)
unfolding param_parse
unknown_lem granted p id bs h = ground arith

-- Of a parameter with an identifier from 15 on, which the parser does not know, the length and
-- the value are read as parameters: where its value has four bytes, the last two of which hold an
-- integer from 64 to 16383, that becomes max_data.
pub parse_unknown :
    (granted : ℕ → Bool) (p : TransportParameter) (id x y v : ℕ) (rest : List ℕ)
    → 0x0f ≤ id
    → id < 2 ^ 16
    → 64 ≤ v
    → v < 2 ^ 14
    → (length (x ∷ y ∷ varint_bytes v) ≡ 4)
      × (parsed granted p (be_bytes 2 id ++ (be_bytes 2 4 ++ (x ∷ y ∷ (varint_bytes v ++ rest))))
          ≡ parsed granted (record p { max_data = v }) rest)
unfolding be_bytes varint_format_len param_parse
parse_unknown granted p id x y v rest h k lo hi = (
  ground (arith, length-varint_bytes v),
  round granted p p id _ _ _ _ (u16_bytes id k) (omega arith) (unknown_lem granted p id _ h)
      ∙ round granted p (record p { max_data = v }) 4 _ _ _ rest refl (omega arith)
          (max_data_lem (x ∷ y ∷ (varint_bytes v ++ rest)) (read_number v x y rest (omega arith))),
)
  where
    max_data_lem :
        (bs : List ℕ)
        → varint_parse bs ≡ ok (v, rest)
        → param_parse granted p 4 bs ≡ ok (record p { max_data = v }, rest)
    max_data_lem bs e = rw (e, ◌>>=◌)

too_long :
    (granted : ℕ → Bool) (len : ℕ) (rest : List ℕ)
    → length rest < len
    → len < 2 ^ 16
    → string_parse granted (be_bytes 2 len ++ rest) ≡ ok (none, rest)
unfolding string_parse u16 string_body be_bytes
too_long granted len rest h k = rw (u16_bytes len k) (ground arith)

connid_lem :
    (granted : ℕ → Bool) (p : TransportParameter) (bs rest : List ℕ)
    → string_parse granted bs ≡ ok (none, rest)
    → param_parse granted p 0 bs ≡ ok (record p { original_connid = none }, rest)
unfolding param_parse
connid_lem granted p bs rest e = rw (e, ◌>>=◌)

-- Where original_connid is announced with more bytes than there are, and fewer than 4 are,
-- quic_transport_parameter_parse returns it with its pointers never set.
pub parse_too_long :
    (granted : ℕ → Bool) (len : ℕ) (rest : List ℕ)
    → length rest < len
    → len < 2 ^ 16
    → length rest < 4
    → parse granted (be_bytes 2 (6 + length rest) ++ (be_bytes 2 0x00 ++ (be_bytes 2 len ++ rest)))
      ≡ ok (record init { original_connid = none }, rest)
unfolding be_bytes
parse_too_long granted len rest h k s =
    parse_lem granted _ (be_bytes 2 0x00 ++ (be_bytes 2 len ++ rest)) (omega arith) (omega arith)
    ∙ round granted init (record init { original_connid = none }) 0x00 _ _ _ rest refl (omega arith)
        (connid_lem granted init _ rest (too_long granted len rest h k))
    ∙ parsed_short granted (record init { original_connid = none }) rest s

cut_lem :
    (granted : ℕ → Bool) (p : TransportParameter) (id x y : ℕ)
    → 1 ≤ id
    → id < 0x0c
    → id ≢ 2
    → param_parse granted p id (x ∷ y ∷ []) ≡ fault
unfolding param_parse varint_parse skip_len load_varint
cut_lem granted p id x y lo hi n = ground arith

-- An integer parameter with no value, whatever its length field says, at the end of the input makes
-- quic_transport_parameter_parse read behind the buffer.
pub parse_cut :
    (granted : ℕ → Bool) (id x y : ℕ)
    → 1 ≤ id
    → id < 0x0c
    → id ≢ 2
    → parse granted (be_bytes 2 6 ++ (be_bytes 2 id ++ (x ∷ y ∷ []))) ≡ fault
unfolding be_bytes
parse_cut granted id x y lo hi n =
    parse_lem granted 6 (be_bytes 2 id ++ (x ∷ y ∷ [])) (omega arith) (omega arith)
    ∙ round-fault granted init id _ _ _ (u16_bytes id (omega arith)) (omega arith)
        (cut_lem granted init id x y lo hi n)
