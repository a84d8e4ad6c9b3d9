-- ===== src/Frame/Payloads.antt =====
-- The frames of src/format/frame.c that carry bytes: their formatters, parsers and sizers agree.
use openquic.Common.{
  ℕ, ◌+◌, ◌≤◌, ◌≡◌, refl, arith, Bool, true, false, not, ◌||◌, List, [], ◌∷◌, ◌++◌, Option, none,
  some, length, length-append, ltb, ◌==◌, if◌then◌else◌,
}
use openquic.Frame.{
  Crypto, NewToken, Stream, NewConnectionId, PathChallenge, PathResponse, ConnectionClose,
}
use openquic.Frame.Parse
use openquic.Frame.Parse.{has_flag, remaining, require, len_byte}
use openquic.Frame.Format
use openquic.Frame.Format.{kind_format}
use openquic.Frame.Size
use openquic.Frame.Size.{kind_size}
use openquic.Frame.Wire.{Parser, ok, ◌>>=◌, pure, varint, Writer, skip, put_byte, put_varint}
use openquic.Frame.Carry.{
  Carries, Framed, Framed-intro, Carries-seq, Carries-last, Carries-quiet, Carries-nothing,
  Carries-varint, Carries-data, Reads-alloc, Writes-put_byte,
}
use openquic.Varint.{varint_format_len}
use openquic.Varint.RoundTrip.{IsVarint}

pub crypto-Framed :
    (f : Crypto)
    → IsVarint f.off
    → IsVarint f.len
    → length f.payload ≡ f.len
    → Framed (Format.crypto_format f) (Parse.crypto_parse true) f.first_byte f (Size.crypto_size f)
unfolding Format.crypto_format Parse.crypto_parse Size.crypto_size
crypto-Framed f h0 h1 e =
    Framed-intro f.first_byte _
      (Carries-seq _ _ _ _ (Carries-varint f.off h0) (
        Carries-seq _ _ _ _ (Carries-varint f.len h1) (
          Carries-quiet _ (Reads-alloc 2)
            (Carries-last _ (Carries-data f.len f.len f.payload e (omega arith)) (λ rest. refl)))))
      (omega arith)

pub new_token-Framed :
    (f : NewToken)
    → IsVarint f.len
    → length f.payload ≡ f.len
    → Framed
        (Format.new_token_format f)
        (Parse.new_token_parse true)
        f.first_byte
        f
        (Size.new_token_size f)
unfolding Format.new_token_format Parse.new_token_parse Size.new_token_size
new_token-Framed f h1 e =
    Framed-intro f.first_byte _
      (Carries-seq _ _ _ _ (Carries-varint f.len h1) (
        Carries-quiet _ (Reads-alloc 1)
          (Carries-last _ (Carries-data f.len f.len f.payload e (omega arith)) (λ rest. refl))))
      (omega arith)

-- The offset of a stream frame is on the wire if its flag is set, and 0 if not.
offset-Carries :
    (flag : Bool) (off : ℕ)
    → IsVarint off
    → (flag ≡ false → off ≡ 0)
    → Carries
        (if flag then put_varint off else skip)
        (if flag then varint else pure 0)
        off
        (if flag then varint_format_len off else 0)
offset-Carries true off h z = Carries-varint off h
offset-Carries false off h z = rw (z refl) (Carries-nothing 0)

-- The length of a stream frame whose flag is set.
length-Carries :
    (flag : Bool) (len : ℕ)
    → IsVarint len
    → flag ≡ true
    → Carries
        (if flag then put_varint len else skip)
        (if flag then varint else remaining)
        len
        (if flag then varint_format_len len else 0)
length-Carries true len h z = Carries-varint len h
length-Carries false len h z = absurd (ground arith)

pub stream-Framed :
    (f : Stream)
    → IsVarint f.sid
    → IsVarint f.off
    → IsVarint f.len
    → (has_flag 0x0c f.first_byte ≡ false → f.off ≡ 0)
    → has_flag 0x0a f.first_byte ≡ true
    → length f.payload ≡ f.len
    → Framed (Format.stream_format f) (Parse.stream_parse true) f.first_byte f (Size.stream_size f)
unfolding Format.stream_format Parse.stream_parse Size.stream_size
stream-Framed f h0 h1 h2 z l e =
    Framed-intro f.first_byte _
      (Carries-seq _ _ _ _ (Carries-varint f.sid h0) (
        Carries-seq _ _ _ _ (offset-Carries (has_flag 0x0c f.first_byte) f.off h1 z) (
          Carries-seq _ _ _ _ (length-Carries (has_flag 0x0a f.first_byte) f.len h2 l) (
            Carries-quiet _ (Reads-alloc 3) (
              Carries-last _ (Carries-data f.len f.len f.payload e (omega arith))
                (λ rest. refl))))))
      (omega arith)

len_byte-Carries : (x : ℕ) → Carries (put_byte x) len_byte x 1
unfolding len_byte
len_byte-Carries x = record {
  bytes = x ∷ [];
  writes = Writes-put_byte x;
  reads = λ rest. refl;
  size = refl;
}

-- The test for `m` more bytes passes where the frame has them.
Carries-guard :
    {A : Type 0} {w : Writer} (p : Parser A) {a : A} {n : ℕ} (m : ℕ)
    → m ≤ n
    → Carries w p a n
    → Carries w (remaining >>= λ left. require (not (ltb left m)) >>= λ _. p) a n
unfolding remaining require
Carries-guard p {a} m h u = record {
  bytes = u.bytes;
  writes = u.writes;
  reads = λ rest.
      let enough : ltb (length (u.bytes ++ rest)) m ≡ false =
        ground (arith, length-append u.bytes rest, u.size) in
      rw enough (u.reads rest);
  size = u.size;
}

require-Reads : (test : Bool) → test ≡ true → (rest : List ℕ) → require test rest ≡ ok (tt, rest)
unfolding require
require-Reads test h rest = rw h

pub new_connection_id-Framed :
    (f : NewConnectionId)
    → IsVarint f.seq
    → IsVarint f.retire
    → 1 ≤ f.len
    → f.len ≤ 20
    → length f.conn ≡ f.len
    → length f.token ≡ 16
    → Framed
        (Format.new_connection_id_format f)
        (Parse.new_connection_id_parse true)
        f.first_byte
        f
        (Size.new_connection_id_size f)
unfolding Format.new_connection_id_format Parse.new_connection_id_parse Size.new_connection_id_size
new_connection_id-Framed f h0 h1 lo hi e16 et =
    Framed-intro f.first_byte _
      (Carries-seq _ _ _ _ (Carries-varint f.seq h0) (
        Carries-seq _ _ _ _ (Carries-varint f.retire h1) (
          Carries-seq _ _ _ _ (len_byte-Carries f.len) (
            Carries-quiet _ (require-Reads (not (ltb f.len 1 || ltb 20 f.len)) (ground arith)) (
              Carries-guard _ (f.len + 16) (omega arith) (
                Carries-seq _ _ _ _ (Carries-data f.len 20 f.conn e16 hi) (
                  Carries-last _ (Carries-data 16 16 f.token et (omega arith))
                    (λ rest. rw (Reads-alloc 2 rest, ◌>>=◌)))))))))
      (omega arith)

pub path_challenge-Framed :
    (f : PathChallenge)
    → length f.payload ≡ 8
    → Framed
        (Format.path_challenge_format f)
        (Parse.path_challenge_parse true)
        f.first_byte
        f
        (Size.path_challenge_size f)
unfolding Format.path_challenge_format Parse.path_challenge_parse Size.path_challenge_size
path_challenge-Framed f e =
    Framed-intro f.first_byte _
      (Carries-last _ (Carries-data 8 8 f.payload e (omega arith))
        (λ rest. rw (Reads-alloc 1 rest, ◌>>=◌)))
      (omega arith)

pub path_response-Framed :
    (f : PathResponse)
    → length f.payload ≡ 8
    → Framed
        (Format.path_response_format f)
        (Parse.path_response_parse true)
        f.first_byte
        f
        (Size.path_response_size f)
unfolding Format.path_response_format Parse.path_response_parse Size.path_response_size
path_response-Framed f e =
    Framed-intro f.first_byte _
      (Carries-last _ (Carries-data 8 8 f.payload e (omega arith))
        (λ rest. rw (Reads-alloc 1 rest, ◌>>=◌)))
      (omega arith)

-- The field `type` is set just on the frames that carry it.
abbrev pub KindFits : Bool → Option ℕ → Type 0
KindFits true (some k) = IsVarint k
KindFits true none = ⊥
KindFits false (some k) = ⊥
KindFits false none = Unit

kind-Carries :
    (on : Bool) (kind : Option ℕ)
    → KindFits on kind
    → Carries
        (if on then kind_format kind else skip)
        (if on then (varint >>= λ k. pure (some k)) else pure none)
        kind
        (if on then kind_size kind else 0)
unfolding kind_format kind_size
kind-Carries true (some k) h = Carries-last _ (Carries-varint k h) (λ rest. refl)
kind-Carries true none h = absurd h
kind-Carries false (some k) h = absurd h
kind-Carries false none h = Carries-nothing none

-- A connection close without a reason.
pub connection_close-Framed :
    (f : ConnectionClose)
    → IsVarint f.err
    → KindFits (f.first_byte == 0x1c) f.kind
    → f.len ≡ 0
    → length f.payload ≡ 0
    → Framed
        (Format.connection_close_format f)
        (Parse.connection_close_parse true)
        f.first_byte
        f
        (Size.connection_close_size f)
unfolding Format.connection_close_format Parse.connection_close_parse Size.connection_close_size
connection_close-Framed f h0 k z e =
    Framed-intro f.first_byte _
      (Carries-seq _ _ _ _ (Carries-varint f.err h0) (
        Carries-seq _ _ _ _ (kind-Carries (f.first_byte == 0x1c) f.kind k) (
          Carries-seq _ _ _ _ (Carries-varint f.len (omega arith)) (
            Carries-quiet _ (Reads-alloc 3) (
              Carries-last _ (Carries-data f.len 0 f.payload (omega arith) (omega arith))
                (λ rest. refl))))))
      (omega arith)
