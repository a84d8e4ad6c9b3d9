-- ===== src/Sealer.antt =====
-- The part of quic_sealer_seal, of src/modules/sealer.c, that writes the frames of a packet into the
-- payload to be sealed.
use openquic.Common.{ℕ, ◌+◌, List, [], ◌∷◌, Option, none, some}
use openquic.Frame.{Frame}
use openquic.Frame.Dispatch.{frame_size, frame_format}
use openquic.Frame.Wire.{Written, done, failed, wild, Writer}

-- The sum of the sizes; `none` where one is read out of another struct.
unfoldable pub payload_len : List Frame → Option ℕ
payload_len [] = some 0
payload_len (f ∷ fs) = elim (frame_size f) [
  | none ↦ none
  | some n ↦ elim (payload_len fs) [ none ↦ none | some m ↦ some (n + m) ]
]

-- The loop that formats; what quic_frame_format returns is not looked at.
unfoldable pub format_frames : List Frame → Writer
format_frames [] b = done b
format_frames (f ∷ fs) b = elim (frame_format f b) [
  | done b' ↦ format_frames fs b'
  | failed e b' ↦ format_frames fs b'
  | wild ↦ wild
]

-- The payload in a buffer of as many bytes as the sizes tell.
unfoldable pub payload : List Frame → Option Written
unfolding payload_len format_frames
payload fs = elim (payload_len fs) [
  | none ↦ none
  | some n ↦ some (format_frames fs (record { out = []; room = n }))
]
