-- ===== src/Framer/Sizes.antt =====
-- The size of a frame that a stream makes.
use openquic.Common.{
  ℕ, ◌≡◌, refl, sym, ap, ◌∙◌, Bool, true, false, not, ◌&&◌, Bool-cases, inl, inr, Option, none,
  some, length, ◌==◌,
}
use mathlib.Core.Option.{some-injective, none-ne-some}
use openquic.Frame
use openquic.Frame.{Frame}
use openquic.Frame.Dispatch.{Codec, codec, frame_size, size_by, first_byte_of}
use openquic.Frame.Size.{stream_size}
use openquic.StreamFlowctrl.{StreamFlowctrl}
use openquic.Stream.Send.{
  SendStream, generate, blocked, flags, made, made_empty, made_some, payload_size,
}

-- The first byte of a frame that a stream makes leads to the functions of STREAM frames.
flags_lem : (a b c : Bool) → codec (flags a b c) ≡ Codec.stream
unfolding codec flags
flags_lem true true true = refl
flags_lem true true false = refl
flags_lem true false true = refl
flags_lem true false false = refl
flags_lem false true true = refl
flags_lem false true false = refl
flags_lem false false true = refl
flags_lem false false false = refl

blocked_lem :
    (g : Bool) (key : ℕ) (s : SendStream) (f : StreamFlowctrl) → (blocked g key s f).frame ≡ none
unfolding blocked
blocked_lem g key s f = go (openquic.StreamFlowctrl.newly_blocked f).0 refl
  where
    go :
        (o : Option ℕ)
        → (openquic.StreamFlowctrl.newly_blocked f).0 ≡ o
        → (blocked g key s f).frame ≡ none
    go none e = rw (e, blocked)
    go (some n) e = rw (e, blocked)

pub codec-generate :
    (for_blocked for_frame : Bool) (bytes key : ℕ) (fill : Bool) (s : SendStream)
    (f : StreamFlowctrl) (fr : Frame.Stream)
    → (generate for_blocked for_frame key bytes fill s f).frame ≡ some fr
    → codec fr.first_byte ≡ Codec.stream
unfolding generate made made_empty made_some
codec-generate for_blocked for_frame bytes key fill s f fr e =
    elim (Bool-cases (payload_size bytes key fill s f == 0 && not s.is_closed)) [
      | inl idle ↦
          absurd
            (none-ne-some fr (sym (blocked_lem for_blocked key s f) ∙ (rw (idle, generate) at e)))
      | inr busy ↦ elim (Bool-cases for_frame) [
        | inr refused ↦ absurd (none-ne-some fr (rw (busy, refused, generate) at e))
        | inl given ↦ elim (Bool-cases (length s.reader == 0)) [
          | inl nothing ↦
              let d = some-injective _ _ (rw (busy, given, nothing, generate, made) at e) in
              ap (λ x. codec x.first_byte) (sym d) ∙ flags_lem _ _ _
          | inr something ↦
              let d = some-injective _ _ (rw (busy, given, something, generate, made) at e) in
              ap (λ x. codec x.first_byte) (sym d) ∙ flags_lem _ _ _
        ]
      ]
    ]

pub stream-frame_size :
    (fr : Frame.Stream)
    → codec fr.first_byte ≡ Codec.stream
    → frame_size (Frame.stream fr) ≡ some (stream_size fr)
unfolding frame_size size_by first_byte_of
stream-frame_size fr e = rw e
