-- ===== src/TransportParameter/Tests.antt =====
-- Runs of src/format/transport_parameter.h, and witnesses.
use openquic.Common.{ℕ, ◌+◌, ◌≡◌, refl, arith, Bool, true, [], ◌∷◌, some, length, internal_error}
use openquic.Varint.{varint_format_len}
use openquic.Frame.Wire.{ok, Buf, done, failed}
use openquic.TransportParameter.{
  TransportParameter, init, string_size, size, format, params_parse, parse,
}
use openquic.TransportParameter.Items.{params_parse_enough}
use openquic.TransportParameter.RoundTrip.{parse-format_params, format_own_size}
use openquic.TransportParameter.Sizes.{IsEncodable, body_size}

abbrev sample : TransportParameter
sample = record {
  original_connid = some [];
  idle_timeout = 30000;
  stateless_reset_token = some (1 ∷ 2 ∷ 3 ∷ 4 ∷ []);
  max_pkt_size = 1460;
  max_data = 65536;
  max_stream_data_bidi_local = 63;
  max_stream_data_bidi_remote = 64;
  max_stream_data_uni = 0;
  max_stream_bidi = 16384;
  max_stream_uni = 3;
  ack_delay_exponent = 3;
  max_ack_delay = 25000;
  disable_migration = true;
  active_connid = 64;
}

sample-IsEncodable : IsEncodable sample [] (1 ∷ 2 ∷ 3 ∷ 4 ∷ [])
sample-IsEncodable = record {
  connid_lem = refl;
  token_lem = refl;
  idle_timeout = omega arith;
  max_pkt_size = omega arith;
  max_data = omega arith;
  max_stream_data_bidi_local = omega arith;
  max_stream_data_bidi_remote = omega arith;
  max_stream_data_uni = omega arith;
  max_stream_bidi = omega arith;
  max_stream_uni = omega arith;
  ack_delay_exponent = omega arith;
  max_ack_delay = omega arith;
  active_connid = omega arith;
  short_connid = omega arith;
  short_token = omega arith;
}

abbrev granting : ℕ → Bool
granting n = true

sample_size : size sample ≡ some 83
unfolding size varint_format_len
sample_size = refl

parse-format_params_example :
    (b' : Buf) × (format 7 9 sample (record { out = []; room = 256 }) ≡ done b')
    × (length b'.out ≡ 2 + body_size sample [] (1 ∷ 2 ∷ 3 ∷ 4 ∷ []))
    × (parse granting b'.out ≡ ok (sample, []))
unfolding string_size varint_format_len
parse-format_params_example =
    parse-format_params granting (λ n. refl) 7 9 sample [] (1 ∷ 2 ∷ 3 ∷ 4 ∷ [])
      (record { out = []; room = 256 }) sample-IsEncodable refl (omega arith)

format_own_size_example :
    (b' : Buf) × (format 7 9 sample (record { out = []; room = 83 })
      ≡ failed internal_error (record { out = 7 ∷ 9 ∷ b'.out; room = b'.room }))
unfolding size varint_format_len
format_own_size_example =
    format_own_size 7 9 sample [] (1 ∷ 2 ∷ 3 ∷ 4 ∷ []) (record { out = []; room = 83 })
      sample-IsEncodable (omega arith) (omega arith) refl

params_parse_enough_example :
    params_parse granting 5 init (0 ∷ 4 ∷ 0 ∷ 1 ∷ 42 ∷ [])
    ≡ params_parse granting 9 init (0 ∷ 4 ∷ 0 ∷ 1 ∷ 42 ∷ [])
params_parse_enough_example =
    params_parse_enough granting 5 9 init (0 ∷ 4 ∷ 0 ∷ 1 ∷ 42 ∷ []) (omega arith) (omega arith)
