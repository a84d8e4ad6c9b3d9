-- ===== src/Frame/Safety.antt =====
-- What the parsers of src/format/frame.c do on any input, and the two that write past their
-- allocation.
use openquic.Common.{ℕ, Bool, List, ◌∷◌}
use openquic.Frame.{Frame}
use openquic.Frame.Parse
use openquic.Frame.Parse.{has_flag, remaining, require, len_byte, ranges_parse, ect_parse}
use openquic.Frame.Dispatch.{Codec, codec, as_frame, parse_by, frame_parse}
use openquic.Frame.Wire.{Parser, pure}
use openquic.Frame.Sound.{Outcome, Outcome-bind, pure-Sound}
use openquic.Frame.Outcomes.{
  ping_outcome, handshake_done_outcome, reset_stream_outcome, stop_sending_outcome,
  max_data_outcome, max_stream_data_outcome, max_streams_outcome, data_blocked_outcome,
  retire_connection_id_outcome, crypto_outcome, new_token_outcome, stream_outcome,
  path_challenge_outcome, path_response_outcome, ack_outcome, new_connection_id_outcome,
}

frame_outcome :
    {A : Type 0} (c : A → Frame) (p : Parser A) (bs : List ℕ)
    → Outcome bs (p bs)
    → Outcome bs (as_frame c p bs)
frame_outcome c p bs h = Outcome-bind bs (p bs) (λ a. pure (c a)) h (λ a. pure-Sound (c a))

-- The entries of the table whose parsers write past what they allocated.
abbrev pub IsFlawed : Codec → Type 0
IsFlawed Codec.connection_close = Unit
IsFlawed Codec.stream_data_blocked = Unit
IsFlawed _ = ⊥

by_outcome :
    (cd : Codec) (g : Bool) (b : ℕ) (bs : List ℕ)
    → ¬ IsFlawed cd
    → Outcome (b ∷ bs) (parse_by cd g (b ∷ bs))
unfolding parse_by
by_outcome Codec.connection_close g b bs h = absurd (h tt)
by_outcome Codec.stream_data_blocked g b bs h = absurd (h tt)
by_outcome Codec.unknown g b bs h = tt
by_outcome Codec.ping g b bs h =
    frame_outcome Frame.ping (Parse.ping_parse g) (b ∷ bs) (ping_outcome g b bs)
by_outcome Codec.ack g b bs h =
    frame_outcome Frame.ack (Parse.ack_parse g) (b ∷ bs) (ack_outcome g b bs)
by_outcome Codec.reset_stream g b bs h =
    frame_outcome Frame.reset_stream (Parse.reset_stream_parse g) (b ∷ bs)
      (reset_stream_outcome g b bs)
by_outcome Codec.stop_sending g b bs h =
    frame_outcome Frame.stop_sending (Parse.stop_sending_parse g) (b ∷ bs)
      (stop_sending_outcome g b bs)
by_outcome Codec.crypto g b bs h =
    frame_outcome Frame.crypto (Parse.crypto_parse g) (b ∷ bs) (crypto_outcome g b bs)
by_outcome Codec.new_token g b bs h =
    frame_outcome Frame.new_token (Parse.new_token_parse g) (b ∷ bs) (new_token_outcome g b bs)
by_outcome Codec.stream g b bs h =
    frame_outcome Frame.stream (Parse.stream_parse g) (b ∷ bs) (stream_outcome g b bs)
by_outcome Codec.max_data g b bs h =
    frame_outcome Frame.max_data (Parse.max_data_parse g) (b ∷ bs) (max_data_outcome g b bs)
by_outcome Codec.max_stream_data g b bs h =
    frame_outcome Frame.max_stream_data (Parse.max_stream_data_parse g) (b ∷ bs)
      (max_stream_data_outcome g b bs)
by_outcome Codec.max_streams g b bs h =
    frame_outcome Frame.max_streams (Parse.max_streams_parse g) (b ∷ bs)
      (max_streams_outcome g b bs)
by_outcome Codec.data_blocked g b bs h =
    frame_outcome Frame.data_blocked (Parse.data_blocked_parse g) (b ∷ bs)
      (data_blocked_outcome g b bs)
by_outcome Codec.new_connection_id g b bs h =
    frame_outcome Frame.new_connection_id (Parse.new_connection_id_parse g) (b ∷ bs)
      (new_connection_id_outcome g b bs)
by_outcome Codec.retire_connection_id g b bs h =
    frame_outcome Frame.retire_connection_id (Parse.retire_connection_id_parse g) (b ∷ bs)
      (retire_connection_id_outcome g b bs)
by_outcome Codec.path_challenge g b bs h =
    frame_outcome Frame.path_challenge (Parse.path_challenge_parse g) (b ∷ bs)
      (path_challenge_outcome g b bs)
by_outcome Codec.path_response g b bs h =
    frame_outcome Frame.path_response (Parse.path_response_parse g) (b ∷ bs)
      (path_response_outcome g b bs)
by_outcome Codec.handshake_done g b bs h =
    frame_outcome Frame.handshake_done (Parse.handshake_done_parse g) (b ∷ bs)
      (handshake_done_outcome g b bs)

-- On any input that is not empty, and whatever malloc answers, quic_frame_parse reads within its
-- memory, but for the one byte behind the input, writes within its memory, and leaves a rear part
-- of the input where it succeeds, unless the first byte leads to quic_connection_close_parse or
-- quic_stream_data_blocked_parse.
pub frame_parse_safe :
    (granted : Bool) (b : ℕ) (bs : List ℕ)
    → ¬ IsFlawed (codec b)
    → Outcome (b ∷ bs) (frame_parse granted (b ∷ bs))
unfolding frame_parse
frame_parse_safe granted b bs h = by_outcome (codec b) granted b bs h
