-- ===== src/Recver/Frames.antt =====
-- The payload that the sealer writes, as the receiver takes it apart.
use openquic.Common.{
  ℕ, zero, suc, ◌+◌, ◌≤◌, ◌≡◌, refl, ap, ◌∙◌, arith, Bool, true, false, not, ◌||◌, List, [], ◌∷◌,
  ◌++◌, append-nil, Option, none, some, length, length-append, inl, inr, Bool-cases,
}
use mathlib.Core.Option.{some-injective, none-ne-some}
use mathlib.Core.Path.{subst}
use openquic.Frame.{Frame}
use openquic.Frame.Wire.{Buf, done, ok, push}
use openquic.Frame.Carry.{push-push}
use openquic.Frame.Dispatch.{frame_parse, first_byte_of}
use openquic.Frame.RoundTrip.{IsCovered, Codes, frame-Codes}
use openquic.Sealer.{payload_len, format_frames, payload}
use openquic.Recver.{
  Handler, Handled, finished, refused, is_ack, is_eliciting, frames_from, process_frames,
}
use openquic.Stream.Recv.{is_success}

abbrev pub AllCovered : List Frame → Type 0
AllCovered [] = Unit {0}
AllCovered (f ∷ fs) = IsCovered f × AllCovered fs

parse-nothing : (f : Frame) (rest : List ℕ) → frame_parse true [] ≡ ok (f, rest) → ⊥
unfolding frame_parse
parse-nothing f rest e = cc

module _ {S : Type 0} (handler : ℕ → Option (Handler S)) (kind time : ℕ) where
  -- The frames of a packet handed to their handlers in turn, up to the first that fails.
  unfoldable pub handed : List Frame → Bool → Bool → S → Handled S
  handed [] ack eliciting s = finished ack eliciting s
  handed (f ∷ fs) ack eliciting s = elim (handler (first_byte_of f)) [
    | none ↦ handed fs (ack || not (is_ack f)) eliciting s
    | some h ↦
        let (e, s') = h kind time f s in
        elim (is_success e) [
          | true ↦ handed fs (ack || not (is_ack f)) (eliciting || is_eliciting f) s'
          | false ↦ refused e eliciting s'
        ]
  ]

  -- A run of bytes that is read as the frames, whatever follows.
  pub record Carried (fs : List Frame) (n : ℕ) : Type 0 where
    pub bytes : List ℕ
    pub size : length bytes ≡ n
    pub written : (b : Buf) → n ≤ b.room → format_frames fs b ≡ done (push bytes b)
    pub read :
        (fuel : ℕ) (ack eliciting : Bool) (s : S)
        → length bytes ≤ fuel
        → frames_from handler (λ i. true) kind time fuel bytes ack eliciting s
          ≡ handed fs ack eliciting s

  one_lem :
      (n : ℕ) (f : Frame) (fs : List Frame) (rest : List ℕ) (ack eliciting : Bool) (s : S)
      → ((ack eliciting : Bool) (s : S)
          → frames_from handler (λ i. true) kind time n rest ack eliciting s
            ≡ handed fs ack eliciting s)
      → elim (handler (first_byte_of f)) [
        | none ↦
            frames_from handler (λ i. true) kind time n rest (ack || not (is_ack f)) eliciting s
        | some h ↦
            let (e, s') = h kind time f s in
            elim (is_success e) [
              | true ↦
                  frames_from handler
                    (λ i. true)
                    kind
                    time
                    n
                    rest
                    (ack || not (is_ack f))
                    (eliciting || is_eliciting f)
                    s'
              | false ↦ refused e eliciting s'
            ]
      ]
        ≡ handed (f ∷ fs) ack eliciting s
  unfolding handed
  one_lem n f fs rest ack eliciting s more = go (handler (first_byte_of f)) refl
    where
      go :
          (o : Option (Handler S))
          → handler (first_byte_of f) ≡ o
          → elim (handler (first_byte_of f)) [
            | none ↦
                frames_from handler (λ i. true) kind time n rest (ack || not (is_ack f)) eliciting s
            | some h ↦
                let (e, s') = h kind time f s in
                elim (is_success e) [
                  | true ↦
                      frames_from handler
                        (λ i. true)
                        kind
                        time
                        n
                        rest
                        (ack || not (is_ack f))
                        (eliciting || is_eliciting f)
                        s'
                  | false ↦ refused e eliciting s'
                ]
          ]
            ≡ handed (f ∷ fs) ack eliciting s
      go none e = rw (e, handed) (more _ _ _)
      go (some h) e = elim (Bool-cases (is_success (h kind time f s).0)) [
        | inl good ↦ rw (e, handed, good) (more _ _ _)
        | inr bad ↦ rw (e, handed, bad)
      ]

  nothing-Carried : Carried [] 0
  unfolding handed frames_from format_frames
  nothing-Carried = record {
    bytes = [];
    size = refl;
    written = λ b h. ground (arith, append-nil b.out);
    read = λ fuel ack eliciting s h. go fuel ack eliciting s;
  }
    where
      go :
          (fuel : ℕ) (ack eliciting : Bool) (s : S)
          → frames_from handler (λ i. true) kind time fuel [] ack eliciting s
            ≡ finished ack eliciting s
      go zero ack eliciting s = refl
      go (suc n) ack eliciting s = refl

  more-Carried :
      (f : Frame) (fs : List Frame) (u : Codes f) (m : ℕ)
      → Carried fs m
      → Carried (f ∷ fs) (length u.bytes + m)
  unfolding format_frames frames_from
  more-Carried f fs u m v = record {
    bytes = u.bytes ++ v.bytes;
    size = omega (arith, length-append u.bytes v.bytes, v.size);
    written = λ b h.
        rw (u.writes.fits b (omega arith), format_frames)
          (v.written (push u.bytes b) (omega arith) ∙ ap done (push-push u.bytes v.bytes b));
    read = λ fuel ack eliciting s h.
        go u.bytes refl fuel ack eliciting s (omega (arith, length-append u.bytes v.bytes));
  }
    where
      go :
          (bs : List ℕ)
          → u.bytes ≡ bs
          → (fuel : ℕ) (ack eliciting : Bool) (s : S) → length u.bytes + length v.bytes ≤ fuel
          → frames_from handler (λ i. true) kind time fuel (u.bytes ++ v.bytes) ack eliciting s
            ≡ handed (f ∷ fs) ack eliciting s
      go [] e fuel ack eliciting s h = absurd (parse-nothing f [] (rw e at u.reads []))
      go (x ∷ xs) e zero ack eliciting s h = absurd (omega (arith, ap length e))
      go (x ∷ xs) e (suc n) ack eliciting s h =
          let r : frame_parse true (x ∷ (xs ++ v.bytes)) ≡ ok (f, v.bytes) =
            (rw e at u.reads v.bytes) in
          let l : length u.bytes ≡ suc (length xs) = ap length e in
          rw (e, frames_from, r)
            (one_lem n f fs v.bytes ack eliciting s (λ a b t. v.read n a b t (omega (arith, l))))

  frames-Carried :
      (fs : List Frame) (n : ℕ) → AllCovered fs → payload_len fs ≡ some n → Carried fs n
  unfolding payload_len
  frames-Carried [] n h e = subst (Carried []) (some-injective _ _ e) nothing-Carried
  frames-Carried (f ∷ fs) n (h, hs) e = go (payload_len fs) refl (λ m. frames-Carried fs m hs)
    where
      u : Codes f
      u = frame-Codes f h

      go :
          (o : Option ℕ)
          → payload_len fs ≡ o
          → ((m : ℕ) → payload_len fs ≡ some m → Carried fs m)
          → Carried (f ∷ fs) n
      go none d later = absurd (none-ne-some n (rw (u.sized, d, payload_len) at e))
      go (some m) d later =
          subst (Carried (f ∷ fs)) (some-injective _ _ (rw (u.sized, d, payload_len) at e))
            (more-Carried f fs u m (later m d))

  -- Where memory is granted, frames of any kinds but STREAM_DATA_BLOCKED and STREAMS_BLOCKED, in
  -- range and with the first bytes of their kinds, where a CONNECTION_CLOSE has no reason and a
  -- STREAM frame tells its length, and whose sizes can be told, are written by quic_sealer_seal
  -- into a payload of just as many bytes, and quic_recver_process_packet_payload hands them from
  -- it to their handlers, each in turn and unchanged, up to the first that fails.
  pub process_frames-payload :
      (fs : List Frame) (n : ℕ) (s : S)
      → AllCovered fs
      → payload_len fs ≡ some n
      → (b : Buf) × (payload fs ≡ some (done b))
        × (length b.out ≡ n)
        × (b.room ≡ 0)
        × (process_frames handler (λ i. true) kind time b.out s ≡ handed fs false false s)
  unfolding payload process_frames
  process_frames-payload fs n s h e =
      let u = frames-Carried fs n h e in
      (
        push u.bytes (record { out = []; room = n }),
        rw (e, payload, u.written (record { out = []; room = n }) (omega arith)),
        u.size,
        omega (arith, u.size),
        u.read (length u.bytes) false false s (omega arith),
      )
