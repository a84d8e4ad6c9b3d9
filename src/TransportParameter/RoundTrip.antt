-- ===== src/TransportParameter/RoundTrip.antt =====
-- What quic_transport_parameter_format writes is what quic_transport_parameter_parse reads.
use openquic.Common.{
  ℕ, ◌+◌, ◌-◌, ◌/◌, ◌^◌, ◌≤◌, ◌<◌, ◌≡◌, refl, ap, sym, ◌∙◌, inl, inr, arith, Bool, true, false,
  List, [], ◌∷◌, ◌++◌, some, append-nil, append_assoc, length, length-append, ltb, if◌then◌else◌,
  Bool-cases, internal_error,
}
use mathlib.Core.Option.{some-injective}
use openquic.Varint.{varint_format_len, be_bytes, varint_bytes}
use openquic.Varint.RoundTrip.{IsVarint, length-varint_bytes}
use openquic.Frame.Wire.{ok, ◌>>=◌, Buf, done, failed, Writer, ◌>>◌, push}
use openquic.Frame.Carry.{push-push, >>-done, >>-failed}
use openquic.TransportParameter.{
  TransportParameter, init, string_size, size, varint_format, string_format, bool_format,
  format_all, format, skip_len, varint_parse, string_parse, bool_parse, param_parse, parse,
}
use openquic.TransportParameter.Items.{
  parsed, parsed_short, round, u16_bytes, read_number, read_text,
}
use openquic.TransportParameter.Sizes.{
  IsEncodable, body_size, same, size_lem, body_size_lt, format_lem, format_fails, length-be_bytes,
  parse_lem,
}

module _ (granted : ℕ → Bool) (g : (n : ℕ) → granted n ≡ true) where
  -- `w` writes `n` bytes, or fails where there is less room, and the loop of the parser goes from
  -- `p` to `q` over them.
  record Carries (w : Writer) (p q : TransportParameter) (n : ℕ) : Type 0 where
    bytes : List ℕ
    fits : (b : Buf) → length bytes ≤ b.room → w b ≡ done (push bytes b)
    full : (b : Buf) → b.room < length bytes → (b' : Buf) × (w b ≡ failed internal_error b')
    reads : (rest : List ℕ) → parsed granted p (bytes ++ rest) ≡ parsed granted q rest
    length_lem : length bytes ≡ n

  seq :
      {w v : Writer} {p q r : TransportParameter} {n m : ℕ}
      → Carries w p q n
      → Carries v q r m
      → Carries (w >> v) p r (n + m)
  seq {w} {v} c d = record {
    bytes = c.bytes ++ d.bytes;
    fits = λ b h.
        >>-done w v (c.fits b (omega (arith, length-append c.bytes d.bytes)))
        ∙ d.fits (push c.bytes b) (omega (arith, length-append c.bytes d.bytes))
        ∙ ap done (push-push c.bytes d.bytes b);
    full = λ b h. elim (Bool-cases (ltb b.room (length c.bytes))) [
      | inl less ↦ let (b', e) = c.full b (ground arith) in (b', >>-failed w v e)
      | inr more ↦
          let (b', e) = d.full (push c.bytes b) (ground (arith, length-append c.bytes d.bytes)) in
          (b', >>-done w v (c.fits b (ground arith)) ∙ e)
    ];
    reads =
        λ rest. rw (append_assoc c.bytes d.bytes rest) (c.reads (d.bytes ++ rest) ∙ d.reads rest);
    length_lem = omega (arith, length-append c.bytes d.bytes, c.length_lem, d.length_lem);
  }

  number :
      (id v : ℕ) (p : TransportParameter) (put : TransportParameter → TransportParameter)
      → id < 2 ^ 16
      → IsVarint v
      → ((bs rest : List ℕ)
          → varint_parse bs ≡ ok (v, rest)
          → param_parse granted p id bs ≡ ok (put p, rest))
      → Carries (varint_format id v) p (put p) (4 + varint_format_len v)
  unfolding varint_format be_bytes
  number id v p put i h k = record {
    bytes = be_bytes 2 id ++ (be_bytes 2 (varint_format_len v) ++ varint_bytes v);
    fits = λ b f. ground (arith, length-varint_bytes v);
    full = λ b f. (b, ground (arith, length-varint_bytes v));
    reads = λ rest.
        round granted p (put p) id _ _ _ rest (u16_bytes id i) (omega arith)
          (k _ rest (read_number v _ _ rest h));
    length_lem = omega (arith, length-varint_bytes v);
  }

  text :
      (id : ℕ) (v : List ℕ) (p : TransportParameter) (put : TransportParameter → TransportParameter)
      → id < 2 ^ 16
      → length v < 2 ^ 14
      → (v ≡ [] → p ≡ put p)
      → ((bs rest : List ℕ)
          → string_parse granted bs ≡ ok (some v, rest)
          → param_parse granted p id bs ≡ ok (put p, rest))
      → Carries (string_format id (some v)) p (put p) (string_size v)
  unfolding string_format string_size be_bytes
  text id [] p put i h same k = record {
    bytes = [];
    fits = λ b f. ground (arith, append-nil b.out);
    full = λ b f. absurd (omega arith);
    reads = λ rest. ap (λ r. parsed granted r rest) (same refl);
    length_lem = refl;
  }
  text id (x ∷ xs) p put i h same k = record {
    bytes = be_bytes 2 id ++ (be_bytes 2 (length (x ∷ xs)) ++ (x ∷ xs));
    fits = λ b f. ground arith;
    full = λ b f. (b, ground arith);
    reads = λ rest.
        round granted p (put p) id _ _ _ rest (u16_bytes id i) (omega arith)
          (k _ rest (read_text granted (x ∷ xs) rest g (omega arith)));
    length_lem = ground arith;
  }

  flag :
      (v : Bool) (p : TransportParameter)
      → p.disable_migration ≡ false
      → Carries (bool_format 0x0c v) p (record p { disable_migration = v }) (if v then 4 else 0)
  unfolding bool_format param_parse bool_parse skip_len be_bytes
  flag false p e = record {
    bytes = [];
    fits = λ b f. ground (arith, append-nil b.out);
    full = λ b f. absurd (omega arith);
    reads = λ rest. ap (λ o. parsed granted (record p { disable_migration = o }) rest) e;
    length_lem = refl;
  }
  flag true p e = record {
    bytes = be_bytes 2 0x0c ++ be_bytes 2 0;
    fits = λ b f. ground arith;
    full = λ b f. (b, ground arith);
    reads = λ rest.
        round granted p (record p { disable_migration = true }) 0x0c _ _ _ rest refl (omega arith)
          refl;
    length_lem = refl;
  }

  -- All parameters, from the defaults on.
  all :
      (p : TransportParameter) (connid token : List ℕ)
      → IsEncodable p connid token
      → Carries
          (format_all
            (record p { original_connid = some connid; stateless_reset_token = some token }))
          init
          (record p { original_connid = some connid; stateless_reset_token = some token })
          (body_size p connid token)
  unfolding format_all init param_parse
  all p connid token h =
      seq
        (seq
          (seq
            (seq
              (seq
                (seq
                  (seq
                    (seq
                      (seq
                        (seq
                          (seq
                            (seq
                              (seq
                                (number 0x01 p.idle_timeout _
                                  (λ r. record r { idle_timeout = p.idle_timeout }) (omega arith)
                                  h.idle_timeout (λ bs rest e. rw (e, ◌>>=◌)))
                                (number 0x03 p.max_pkt_size _
                                  (λ r. record r { max_pkt_size = p.max_pkt_size }) (omega arith)
                                  h.max_pkt_size (λ bs rest e. rw (e, ◌>>=◌))))
                              (number 0x04 p.max_data _ (λ r. record r { max_data = p.max_data })
                                (omega arith) h.max_data (λ bs rest e. rw (e, ◌>>=◌))))
                            (number 0x05 p.max_stream_data_bidi_local _
                              (λ r. record r {
                                max_stream_data_bidi_local = p.max_stream_data_bidi_local;
                              })
                              (omega arith) h.max_stream_data_bidi_local
                              (λ bs rest e. rw (e, ◌>>=◌))))
                          (number 0x06 p.max_stream_data_bidi_remote _
                            (λ r. record r {
                              max_stream_data_bidi_remote = p.max_stream_data_bidi_remote;
                            })
                            (omega arith) h.max_stream_data_bidi_remote
                            (λ bs rest e. rw (e, ◌>>=◌))))
                        (number 0x07 p.max_stream_data_uni _
                          (λ r. record r { max_stream_data_uni = p.max_stream_data_uni })
                          (omega arith) h.max_stream_data_uni (λ bs rest e. rw (e, ◌>>=◌))))
                      (number 0x08 p.max_stream_bidi _
                        (λ r. record r { max_stream_bidi = p.max_stream_bidi }) (omega arith)
                        h.max_stream_bidi (λ bs rest e. rw (e, ◌>>=◌))))
                    (number 0x09 p.max_stream_uni _
                      (λ r. record r { max_stream_uni = p.max_stream_uni }) (omega arith)
                      h.max_stream_uni (λ bs rest e. rw (e, ◌>>=◌))))
                  (number 0x0a p.ack_delay_exponent _
                    (λ r. record r { ack_delay_exponent = p.ack_delay_exponent }) (omega arith)
                    (omega (arith, h.ack_delay_exponent))
                    (λ bs rest e. rw (e, ◌>>=◌) (ground (arith, h.ack_delay_exponent)))))
                (number 0x0b p.max_ack_delay _ (λ r. record r { max_ack_delay = p.max_ack_delay })
                  (omega arith) h.max_ack_delay (λ bs rest e. rw (e, ◌>>=◌))))
              (number 0x0e p.active_connid _ (λ r. record r { active_connid = p.active_connid })
                (omega arith) h.active_connid (λ bs rest e. rw (e, ◌>>=◌))))
            (text 0x00 connid _ (λ r. record r { original_connid = some connid }) (omega arith)
              h.short_connid (λ e. rw e) (λ bs rest e. rw (e, ◌>>=◌))))
          (text 0x02 token _ (λ r. record r { stateless_reset_token = some token }) (omega arith)
            h.short_token (λ e. rw e) (λ bs rest e. rw (e, ◌>>=◌))))
        (flag p.disable_migration _ refl)

  -- Where memory is granted, parameters that are in range and have an identifier and a token,
  -- formatted into an empty buffer with room for them, whatever its memory held, are written in
  -- just their size, and quic_transport_parameter_parse reads the same parameters back and all
  -- the bytes.
  pub parse-format_params :
      (x y : ℕ) (p : TransportParameter) (connid token : List ℕ) (b : Buf)
      → IsEncodable p connid token
      → b.out ≡ []
      → 2 + body_size p connid token ≤ b.room
      → (b' : Buf) × (format x y p b ≡ done b')
        × (length b'.out ≡ 2 + body_size p connid token)
        × (parse granted b'.out ≡ ok (p, []))
  parse-format_params x y p connid token b h empty room =
      rw (← same p connid token h) (go (all p connid token h))
    where
      go :
          Carries
            (format_all
              (record p { original_connid = some connid; stateless_reset_token = some token }))
            init
            (record p { original_connid = some connid; stateless_reset_token = some token })
            (body_size p connid token)
          → (b' : Buf) × (format x y
                (record p { original_connid = some connid; stateless_reset_token = some token })
                b
              ≡ done b')
            × (length b'.out ≡ 2 + body_size p connid token)
            × (parse granted b'.out
                ≡ ok (
                  record p { original_connid = some connid; stateless_reset_token = some token },
                  [],
                ))
      go c =
          let made =
            format_lem x y _ b _
              (c.fits (record { out = []; room = b.room - 2 }) (omega (arith, c.length_lem))) in
          (
            _,
            made,
            rw empty (
                omega (
                  arith,
                  c.length_lem,
                  length-append (be_bytes 2 (2 + length c.bytes)) c.bytes,
                  length-be_bytes (2 + length c.bytes),
                )),
            rw empty (
                parse_lem granted _ c.bytes refl
                  (omega (arith, c.length_lem, body_size_lt p connid token h))
                ∙ ap (parsed granted init) (sym (append-nil c.bytes))
                ∙ c.reads []
                ∙ parsed_short granted _ [] (omega arith)),
          )

-- In a buffer of as many bytes as quic_transport_parameter_size tells, as
-- quic_sealer_process_transport_parameters takes, parameters in range whose active_connid is from
-- 64 to 16383999 do not fit: quic_transport_parameter_format fails, and leaves the two bytes of
-- the length as they were.
pub format_own_size :
    (x y : ℕ) (p : TransportParameter) (connid token : List ℕ) (b : Buf)
    → IsEncodable p connid token
    → 64 ≤ p.active_connid
    → p.active_connid < 16384000
    → size p ≡ some b.room
    → (b' : Buf) × (format x y p b
        ≡ failed internal_error (record { out = b.out ++ (x ∷ y ∷ b'.out); room = b'.room }))
unfolding varint_format_len
format_own_size x y p connid token b h lo hi e =
    let (n, e', sum) = size_lem p connid token h in
    let room : n ≡ b.room = some-injective _ _ (sym e' ∙ e) in
    let c = all (λ k. true) (λ k. refl) p connid token h in
    let (b', z) =
      c.full (record { out = []; room = b.room - 2 })
        (omega (arith, c.length_lem, shorter p.active_connid lo hi)) in
    (b', ap (λ q. format x y q b) (sym (same p connid token h)) ∙ format_fails x y _ b b' z)
  where
    shorter : (a : ℕ) → 64 ≤ a → a < 16384000 → varint_format_len (a / 1000) < varint_format_len a
    shorter a lo hi = ground arith
