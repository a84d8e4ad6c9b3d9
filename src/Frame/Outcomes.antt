-- ===== src/Frame/Outcomes.antt =====
-- Each parser of src/format/frame.c but two stays within its memory.
use openquic.Common.{
  ℕ, ◌+◌, ◌*◌, ◌%◌, ◌^◌, ◌≡◌, refl, arith, Bool, true, false, not, ◌||◌, List, ◌∷◌, ltb, ◌==◌, none,
}
use openquic.Frame.{NewConnectionId}
use openquic.Frame.Parse
use openquic.Frame.Parse.{has_flag, remaining, require, len_byte, ranges_parse, ect_parse}
use openquic.Frame.Wire.{Parser, ◌>>=◌}
use openquic.Frame.Sound.{
  Outcome, Sound, >>=-Sound, pure-Sound, if-Sound, varint-Sound, copy_data-Sound, alloc-Sound,
  remaining-Sound, require-Sound, len_byte-Sound, ranges_parse-Sound, ect_parse-Sound, after_first,
}

pub ping_outcome :
    (g : Bool) (first : ℕ) (bs : List ℕ) → Outcome (first ∷ bs) (Parse.ping_parse g (first ∷ bs))
unfolding Parse.ping_parse
ping_outcome g first bs = after_first _ first bs (>>=-Sound _ _ (alloc-Sound g 0) λ _. pure-Sound _)

pub handshake_done_outcome :
    (g : Bool) (first : ℕ) (bs : List ℕ)
    → Outcome (first ∷ bs) (Parse.handshake_done_parse g (first ∷ bs))
unfolding Parse.handshake_done_parse
handshake_done_outcome g first bs =
    after_first _ first bs (>>=-Sound _ _ (alloc-Sound g 0) λ _. pure-Sound _)

pub reset_stream_outcome :
    (g : Bool) (first : ℕ) (bs : List ℕ)
    → Outcome (first ∷ bs) (Parse.reset_stream_parse g (first ∷ bs))
unfolding Parse.reset_stream_parse
reset_stream_outcome g first bs = after_first _ first bs (
    >>=-Sound _ _ varint-Sound λ _.
      >>=-Sound _ _ varint-Sound
        λ _. >>=-Sound _ _ varint-Sound λ _. >>=-Sound _ _ (alloc-Sound g 3) λ _. pure-Sound _)

pub stop_sending_outcome :
    (g : Bool) (first : ℕ) (bs : List ℕ)
    → Outcome (first ∷ bs) (Parse.stop_sending_parse g (first ∷ bs))
unfolding Parse.stop_sending_parse
stop_sending_outcome g first bs = after_first _ first bs (
    >>=-Sound _ _ varint-Sound
      λ _. >>=-Sound _ _ varint-Sound λ _. >>=-Sound _ _ (alloc-Sound g 2) λ _. pure-Sound _)

pub max_data_outcome :
    (g : Bool) (first : ℕ) (bs : List ℕ)
    → Outcome (first ∷ bs) (Parse.max_data_parse g (first ∷ bs))
unfolding Parse.max_data_parse
max_data_outcome g first bs =
    after_first _ first bs
      (>>=-Sound _ _ varint-Sound λ _. >>=-Sound _ _ (alloc-Sound g 1) λ _. pure-Sound _)

pub max_stream_data_outcome :
    (g : Bool) (first : ℕ) (bs : List ℕ)
    → Outcome (first ∷ bs) (Parse.max_stream_data_parse g (first ∷ bs))
unfolding Parse.max_stream_data_parse
max_stream_data_outcome g first bs = after_first _ first bs (
    >>=-Sound _ _ varint-Sound
      λ _. >>=-Sound _ _ varint-Sound λ _. >>=-Sound _ _ (alloc-Sound g 2) λ _. pure-Sound _)

pub max_streams_outcome :
    (g : Bool) (first : ℕ) (bs : List ℕ)
    → Outcome (first ∷ bs) (Parse.max_streams_parse g (first ∷ bs))
unfolding Parse.max_streams_parse
max_streams_outcome g first bs =
    after_first _ first bs
      (>>=-Sound _ _ varint-Sound λ _. >>=-Sound _ _ (alloc-Sound g 1) λ _. pure-Sound _)

pub data_blocked_outcome :
    (g : Bool) (first : ℕ) (bs : List ℕ)
    → Outcome (first ∷ bs) (Parse.data_blocked_parse g (first ∷ bs))
unfolding Parse.data_blocked_parse
data_blocked_outcome g first bs =
    after_first _ first bs
      (>>=-Sound _ _ varint-Sound λ _. >>=-Sound _ _ (alloc-Sound g 1) λ _. pure-Sound _)

pub retire_connection_id_outcome :
    (g : Bool) (first : ℕ) (bs : List ℕ)
    → Outcome (first ∷ bs) (Parse.retire_connection_id_parse g (first ∷ bs))
unfolding Parse.retire_connection_id_parse
retire_connection_id_outcome g first bs =
    after_first _ first bs
      (>>=-Sound _ _ varint-Sound λ _. >>=-Sound _ _ (alloc-Sound g 1) λ _. pure-Sound _)

pub crypto_outcome :
    (g : Bool) (first : ℕ) (bs : List ℕ) → Outcome (first ∷ bs) (Parse.crypto_parse g (first ∷ bs))
unfolding Parse.crypto_parse
crypto_outcome g first bs = after_first _ first bs (
    >>=-Sound _ _ varint-Sound λ _. >>=-Sound _ _ varint-Sound λ len.
      >>=-Sound _ _ (alloc-Sound g 2)
        λ _. >>=-Sound _ _ (copy_data-Sound len len (omega arith)) λ _. pure-Sound _)

pub new_token_outcome :
    (g : Bool) (first : ℕ) (bs : List ℕ)
    → Outcome (first ∷ bs) (Parse.new_token_parse g (first ∷ bs))
unfolding Parse.new_token_parse
new_token_outcome g first bs = after_first _ first bs (
    >>=-Sound _ _ varint-Sound λ len.
      >>=-Sound _ _ (alloc-Sound g 1)
        λ _. >>=-Sound _ _ (copy_data-Sound len len (omega arith)) λ _. pure-Sound _)

pub stream_outcome :
    (g : Bool) (first : ℕ) (bs : List ℕ) → Outcome (first ∷ bs) (Parse.stream_parse g (first ∷ bs))
unfolding Parse.stream_parse
stream_outcome g first bs = after_first _ first bs (
    >>=-Sound _ _ varint-Sound λ _.
      >>=-Sound _ _ (if-Sound (has_flag 0x0c first) _ _ varint-Sound (pure-Sound 0)) λ _.
        >>=-Sound _ _ (if-Sound (has_flag 0x0a first) _ _ varint-Sound remaining-Sound) λ len.
          >>=-Sound _ _ (alloc-Sound g 3)
            λ _. >>=-Sound _ _ (copy_data-Sound len len (omega arith)) λ _. pure-Sound _)

pub path_challenge_outcome :
    (g : Bool) (first : ℕ) (bs : List ℕ)
    → Outcome (first ∷ bs) (Parse.path_challenge_parse g (first ∷ bs))
unfolding Parse.path_challenge_parse
path_challenge_outcome g first bs = after_first _ first bs (
    >>=-Sound _ _ (copy_data-Sound 8 8 (omega arith))
      λ _. >>=-Sound _ _ (alloc-Sound g 1) λ _. pure-Sound _)

pub path_response_outcome :
    (g : Bool) (first : ℕ) (bs : List ℕ)
    → Outcome (first ∷ bs) (Parse.path_response_parse g (first ∷ bs))
unfolding Parse.path_response_parse
path_response_outcome g first bs = after_first _ first bs (
    >>=-Sound _ _ (copy_data-Sound 8 8 (omega arith))
      λ _. >>=-Sound _ _ (alloc-Sound g 1) λ _. pure-Sound _)

pub ack_outcome :
    (g : Bool) (first : ℕ) (bs : List ℕ) → Outcome (first ∷ bs) (Parse.ack_parse g (first ∷ bs))
unfolding Parse.ack_parse
ack_outcome g first bs = after_first _ first bs (
    >>=-Sound _ _ varint-Sound λ _. >>=-Sound _ _ varint-Sound λ _.
      >>=-Sound _ _ varint-Sound λ count. >>=-Sound _ _ varint-Sound λ _.
        >>=-Sound _ _ (alloc-Sound g (2 * (count % 2 ^ 32))) λ _.
          >>=-Sound _ _ (ranges_parse-Sound (count % 2 ^ 32)) λ _.
            >>=-Sound _ _ (if-Sound (first == 0x03) _ _ ect_parse-Sound (pure-Sound none))
              λ _. pure-Sound _)

require_then :
    {A : Type 0} (test : Bool) (p : Parser A)
    → (test ≡ true → Sound p)
    → Sound (require test >>= λ _. p)
require_then true p h = >>=-Sound _ _ (require-Sound true) λ _. h refl
require_then false p h = record { run = λ bs. unfold require in tt }

pub new_connection_id_outcome :
    (g : Bool) (first : ℕ) (bs : List ℕ)
    → Outcome (first ∷ bs) (Parse.new_connection_id_parse g (first ∷ bs))
unfolding Parse.new_connection_id_parse
new_connection_id_outcome g first bs = after_first _ first bs (
    >>=-Sound _ _ varint-Sound λ seq. >>=-Sound _ _ varint-Sound λ retire.
      >>=-Sound _ _ len_byte-Sound λ len. require_then (not (ltb len 1 || ltb 20 len)) _ λ test.
        >>=-Sound _ _ remaining-Sound λ left.
          >>=-Sound _ _ (require-Sound (not (ltb left (len + 16)))) λ _.
            >>=-Sound _ _ (copy_data-Sound 20 len (ground arith)) λ conn.
              >>=-Sound _ _ (copy_data-Sound 16 16 (omega arith)) λ token.
                >>=-Sound _ _ (alloc-Sound g 2) λ _. pure-Sound {A = NewConnectionId} (record {
                  first_byte = first;
                  seq = seq;
                  retire = retire;
                  len = len;
                  conn = conn;
                  token = token;
                }))
