-- ===== src/Frame/Acks.antt =====
-- The ACK frame of src/format/frame.c: its formatter, parser and sizer agree.
use openquic.Common.{
  ◌+◌, ◌*◌, ◌%◌, ◌^◌, ◌<◌, ◌≡◌, refl, arith, Bool, true, false, List, [], ◌∷◌, Option, none, some,
  All, length, ◌==◌, if◌then◌else◌,
}
use openquic.Frame.{AckRange, Ect, Ack}
use openquic.Frame.Parse.{ranges_parse, ect_parse, ack_parse}
use openquic.Frame.Format.{ranges_format, ect_format, ack_format}
use openquic.Frame.Size.{ranges_size, ect_size, ack_size}
use openquic.Frame.Wire.{pure, skip}
use openquic.Frame.Carry.{
  Carries, Framed, Framed-intro, Carries-seq, Carries-last, Carries-quiet, Carries-resize,
  Carries-nothing, Carries-varint, Reads-alloc,
}
use openquic.Varint.RoundTrip.{IsVarint}

abbrev pub RangeFits : AckRange → Type 0
RangeFits r = IsVarint r.gap × IsVarint r.len

ranges-Carries :
    (rs : List AckRange)
    → All RangeFits rs
    → Carries (ranges_format rs) (ranges_parse (length rs)) rs (ranges_size rs)
unfolding ranges_format ranges_parse ranges_size
ranges-Carries [] h = Carries-nothing []
ranges-Carries (r ∷ rs) ((hg, hl), h) = Carries-resize (omega arith) (
    Carries-seq _ _ _ _ (Carries-varint r.gap hg) (
      Carries-seq _ _ _ _ (Carries-varint r.len hl)
        (Carries-last _ (ranges-Carries rs h) (λ rest. refl))))

-- The counters are set just on the frames that carry them.
abbrev pub EctFits : Bool → Option Ect → Type 0
EctFits true (some e) = IsVarint e.ect0 × IsVarint e.ect1 × IsVarint e.ect_ce
EctFits true none = ⊥
EctFits false (some e) = ⊥
EctFits false none = Unit

ect-Carries :
    (on : Bool) (o : Option Ect)
    → EctFits on o
    → Carries
        (if on then ect_format o else skip)
        (if on then ect_parse else pure none)
        o
        (if on then ect_size o else 0)
unfolding ect_format ect_parse ect_size
ect-Carries true (some e) (h0, h1, h2) = Carries-resize (omega arith) (
    Carries-seq _ _ _ _ (Carries-varint e.ect0 h0) (
      Carries-seq _ _ _ _ (Carries-varint e.ect1 h1)
        (Carries-last _ (Carries-varint e.ect_ce h2) (λ rest. refl))))
ect-Carries true none h = absurd h
ect-Carries false (some e) h = absurd h
ect-Carries false none h = Carries-nothing none

pub record IsAck (f : Ack) : Type 0 where
  pub largest : IsVarint f.largest_ack
  pub delay : IsVarint f.delay
  pub first : IsVarint f.first_range
  pub count : length f.ranges < 2 ^ 32
  pub fits : All RangeFits f.ranges
  pub ect : EctFits (f.first_byte == 0x03) f.ect

pub ack-Framed :
    (f : Ack) → IsAck f → Framed (ack_format f) (ack_parse true) f.first_byte f (ack_size f)
unfolding ack_format ack_parse ack_size
ack-Framed f v =
    let whole : length f.ranges % 2 ^ 32 ≡ length f.ranges = omega (arith, v.count) in
    Framed-intro f.first_byte _
      (Carries-seq _ _ _ _ (Carries-varint f.largest_ack v.largest) (
        Carries-seq _ _ _ _ (Carries-varint f.delay v.delay) (
          Carries-seq _ _ _ _ (Carries-varint (length f.ranges) (omega (arith, v.count))) (
            Carries-seq _ _ _ _
              {m = ranges_size f.ranges + (if f.first_byte == 0x03 then ect_size f.ect else 0)}
              (Carries-varint f.first_range v.first)
              (rw whole (
                Carries-quiet _ (Reads-alloc (2 * length f.ranges)) (
                  Carries-seq _ _ _ _ (ranges-Carries f.ranges v.fits) (
                    Carries-last _ (ect-Carries (f.first_byte == 0x03) f.ect v.ect)
                      (λ rest. refl)))))))))
      (omega arith)
